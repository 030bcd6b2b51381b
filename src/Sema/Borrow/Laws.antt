-- ===== src/Sema/Borrow/Laws.antt =====
-- What the result of `findLastUse` says of the statements behind the declaration.
use mathlib.Core.Path.{subst}
use liva_lang.Base.{
  ◌↔◌, ℕ, zero, suc, ◌+◌, Bool, true, false, ◌||◌, List, [], ◌∷◌, ◌++◌, Option, none, some, Bytes,
  bytes_eq, if◌then◌else◌, ◌≡◌, refl, sym, ap, ◌∙◌, ◌⊎◌, inl, inr, arith, Bool-cases, if_true,
  if_false,
}
use liva_lang.Ast.Nodes.{Node, absent, present, Nodes, nil, cons}
use liva_lang.Ast.Walk.{subtree}
use liva_lang.Sema.Borrow.{
  ScanState, LastUseResult, names, occurs, inspect, inspect_ref, scan, fresh, last_use_from,
  find_last_use,
}

-- Statement number `k`, and the statements behind it.
abbrev pub nth : ℕ → Nodes → Option Node
nth k nil = none
nth zero (cons n ns) = some n
nth (suc k) (cons n ns) = nth k ns

abbrev pub behind : ℕ → Nodes → Nodes
behind k nil = nil
behind zero (cons n ns) = ns
behind (suc k) (cons n ns) = behind k ns

-- What `walkSubtree` gives of some statements, one after the other
abbrev pub subtree_all : Nodes → List Node
subtree_all nil = []
subtree_all (cons n ns) = subtree n ++ subtree_all ns

-- Whether the name occurs in one statement, or in some.
abbrev pub mentions : Bytes → Node → Bool
mentions name n = occurs name (subtree n)

abbrev pub mentions_any : Bytes → Nodes → Bool
mentions_any name ns = occurs name (subtree_all ns)

inspect_ref-used :
    (name : Bytes) (n : Node) (st : ScanState) → (inspect_ref name n st).used ≡ st.used
unfolding inspect_ref
inspect_ref-used name (Node.identifier i n) st = ground arith
inspect_ref-used name _ st = refl

or_false : (b : Bool) → b ≡ (b || false)
or_false true = refl
or_false false = refl

or_true : (b : Bool) → true ≡ (b || true)
or_true true = refl
or_true false = refl

or_assoc : (a b c : Bool) → ((a || b) || c) ≡ (a || (b || c))
or_assoc true b c = refl
or_assoc false b c = refl

set_used :
    (b : Bool) (st : ScanState)
    → (if b then record st { used = true } else st).used ≡ (st.used || b)
set_used true st = or_true st.used
set_used false st = or_false st.used

set_blocked :
    (b : Bool) (st : ScanState)
    → (if b then record st { blocked = true } else st).used ≡ (st.used || false)
set_blocked true st = or_false st.used
set_blocked false st = or_false st.used

inspect-used :
    (name : Bytes) (n : Node) (st : ScanState)
    → (inspect name n st).used ≡ (st.used || names name n)
unfolding inspect names
inspect-used name (Node.identifier i n) st = set_used (bytes_eq n name) st
inspect-used name (Node.ref_expr i e m) st = inspect_ref-used name e st ∙ or_false st.used
inspect-used name (Node.closure i ps b) st =
    set_blocked (occurs name (subtree (Node.closure i ps b))) st
inspect-used name (Node.macro_invoke i n absent) st = or_false st.used
inspect-used name (Node.macro_invoke i n (present e)) st = or_false st.used
inspect-used name _ st = or_false st.used

scan-used :
    (name : Bytes) (ns : List Node) (st : ScanState)
    → (scan name ns st).used ≡ (st.used || occurs name ns)
unfolding scan occurs
scan-used name [] st = or_false st.used
scan-used name (n ∷ ns) st =
    scan-used name ns (inspect name n st)
    ∙ ap (λ (b : Bool). b || occurs name ns) (inspect-used name n st)
    ∙ or_assoc st.used (names name n) (occurs name ns)

occurs-append :
    (name : Bytes) (a b : List Node) → occurs name (a ++ b) ≡ (occurs name a || occurs name b)
unfolding occurs
occurs-append name [] b = refl
occurs-append name (n ∷ a) b =
    ap (λ (r : Bool). names name n || r) (occurs-append name a b)
    ∙ sym (or_assoc (names name n) (occurs name a) (occurs name b))

-- The statement to which a scan of `ns` from number `i` on leads, if it began with `last`: `last`
-- itself if the name occurs in none of them, and otherwise the last one in which it occurs.
abbrev pub IsLastUse : Bytes → ℕ → ℕ → Nodes → ℕ → Type 0
IsLastUse name last i ns r =
    ((r ≡ last) × (mentions_any name ns ≡ false))
    ⊎ ((k : ℕ) × (n : Node) × (r ≡ i + k)
        × (nth k ns ≡ some n)
        × (mentions name n ≡ true)
        × (mentions_any name (behind k ns) ≡ false))

-- No rule of `inspect` blocks any of the statements.
abbrev pub AreFree : Bytes → Nodes → Type 0
AreFree name nil = Unit
AreFree name (cons n ns) = ((scan name (subtree n) fresh).blocked ≡ false) × AreFree name ns

unblocked :
    (b : Bool) (q r : LastUseResult)
    → q.shortenable ≡ false
    → (if b then q else r).shortenable ≡ true
    → (b ≡ false) × ((if b then q else r) ≡ r)
unblocked true q r e h = cc
unblocked false q r e h = (refl, refl)

last_use_from-cons :
    (name : Bytes) (last i : ℕ) (n : Node) (ns : Nodes)
    → (last_use_from name last i (cons n ns)).shortenable ≡ true
    → ((scan name (subtree n) fresh).blocked ≡ false)
      × (last_use_from name last i (cons n ns)
          ≡ last_use_from name (if mentions name n then i else last) (i + 1) ns)
unfolding last_use_from
last_use_from-cons name last i n ns h =
    let st = scan name (subtree n) fresh in
    let (free, e) =
      unblocked st.blocked (record { stmt_index = last; shortenable = false })
        (last_use_from name (if st.used then i else last) (i + 1) ns) refl h in
    (
      free,
      e
          ∙ ap (λ (b : Bool). last_use_from name (if b then i else last) (i + 1) ns)
              (scan-used name (subtree n) fresh),
    )

-- One statement more in front.
IsLastUse-cons :
    (name : Bytes) (last i : ℕ) (n : Node) (ns : Nodes) (r : ℕ)
    → IsLastUse name (if mentions name n then i else last) (i + 1) ns r
    → IsLastUse name last i (cons n ns) r
unfolding occurs
IsLastUse-cons name last i n ns r (inl (e, quiet)) = elim (Bool-cases (mentions name n)) [
  | inl used ↦
      inr (zero, n, e ∙ if_true (mentions name n) i last used ∙ omega arith, refl, used, quiet)
  | inr unused ↦ inl (
    e ∙ if_false (mentions name n) i last unused,
    occurs-append name (subtree n) (subtree_all ns) ∙ cc (unused, quiet),
  )
]
IsLastUse-cons name last i n ns r (inr (k, m, e, at, used, quiet)) =
    inr (suc k, m, omega (arith, e), at, used, quiet)

last_use_from-nil :
    (name : Bytes) (last i : ℕ)
    → IsLastUse name last i nil (last_use_from name last i nil).stmt_index
unfolding last_use_from occurs
last_use_from-nil name last i = inl (refl, refl)

last_use_from-IsLastUse :
    (name : Bytes) (last i : ℕ) (ns : Nodes)
    → (last_use_from name last i ns).shortenable ≡ true
    → IsLastUse name last i ns (last_use_from name last i ns).stmt_index × AreFree name ns
last_use_from-IsLastUse name last i nil h = (last_use_from-nil name last i, tt)
last_use_from-IsLastUse name last i (cons n ns) h =
    let (free, e) = last_use_from-cons name last i n ns h in
    let (is, are) =
      last_use_from-IsLastUse name (if mentions name n then i else last) (i + 1) ns
        (sym (ap (λ (r : LastUseResult). r.shortenable) e) ∙ h) in
    (
      IsLastUse-cons name last i n ns _ (
          subst (IsLastUse name (if mentions name n then i else last) (i + 1) ns)
            (ap (λ (r : LastUseResult). r.stmt_index) (sym e)) is),
      (free, are),
    )

last_use_from-free :
    (name : Bytes) (last i : ℕ) (ns : Nodes)
    → AreFree name ns
    → (last_use_from name last i ns).shortenable ≡ true
unfolding last_use_from
last_use_from-free name last i nil h = refl
last_use_from-free name last i (cons n ns) h =
    let st = scan name (subtree n) fresh in
    let rest = last_use_from name (if st.used then i else last) (i + 1) ns in
    ap (λ (r : LastUseResult). r.shortenable)
      (if_false st.blocked (record { stmt_index = last; shortenable = false }) rest h.0)
    ∙ last_use_from-free name (if st.used then i else last) (i + 1) ns h.1

-- `findLastUse` lets a borrow end early exactly if no rule blocks a statement behind the
-- declaration. It then ends at the last of them in which the name occurs, and at the declaration
-- if it occurs in none: it occurs nowhere behind that statement.
pub find_last_use-IsLastUse :
    (after : Nodes) (d : ℕ) (name : Bytes)
    → ((find_last_use after d name).shortenable ≡ true ↔ AreFree name after)
      × ((find_last_use after d name).shortenable ≡ true
          → IsLastUse name d (d + 1) after (find_last_use after d name).stmt_index)
unfolding find_last_use
find_last_use-IsLastUse after d name = (
  (
    λ h. (last_use_from-IsLastUse name d (d + 1) after h).1,
    last_use_from-free name d (d + 1) after,
  ),
  λ h. (last_use_from-IsLastUse name d (d + 1) after h).0,
)
