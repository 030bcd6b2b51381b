-- ===== src/Sema/Scope/Laws.antt =====
-- Declarations, shadowing and the end of a scope.
use liva_lang.Base.{
  Bool, true, false, List, [], ◌∷◌, ◌++◌, Option, none, some, Bytes, bytes_eq, bytes_eq_iff, ◌≡◌,
  ◌≢◌, ◌⊎◌, inl, inr, refl, sym, ◌∙◌, arith, if◌then◌else◌, Bool-cases, Option-cases,
}
use liva_lang.Sema.Scope.Defs.{
  Symbol, Table, ScopeStack, find_symbol, lookup_chain, push_scope, pop_scope, declare, lookup,
  lookup_local, pop_to, names_in, names_of, collect_all_names,
}

bytes_eq_refl : (b : Bytes) → bytes_eq b b ≡ true
bytes_eq_refl b = (bytes_eq_iff b b).1 refl

bytes_eq-ne : (name other : Bytes) → other ≢ name → bytes_eq name other ≡ false
bytes_eq-ne name other ne = elim (Bool-cases (bytes_eq name other)) [
  | inl same ↦ absurd (ne (sym ((bytes_eq_iff name other).0 same)))
  | inr differ ↦ differ
]

declare_fresh :
    (name : Bytes) (symbol : Symbol) (s : ScopeStack)
    → find_symbol name s.current ≡ none
    → declare name symbol s ≡ (record s { current = (name, symbol) ∷ s.current }, true)
unfolding declare
declare_fresh name symbol s h = ground arith

declare_old :
    (name : Bytes) (symbol : Symbol) (s : ScopeStack) {old : Symbol}
    → find_symbol name s.current ≡ some old
    → declare name symbol s ≡ (s, false)
unfolding declare
declare_old name symbol s h = ground arith

lookup_fresh :
    (name other : Bytes) (symbol : Symbol) (s : ScopeStack)
    → lookup other (record s { current = (name, symbol) ∷ s.current })
      ≡ (if bytes_eq name other then some symbol else lookup other s)
unfolding lookup
lookup_fresh name other symbol s = ground arith

-- A declaration succeeds exactly if the name is new in the current scope. It then is what the name
-- means, and no other name changes; otherwise nothing changes.
pub declare_lem :
    (name other : Bytes) (symbol : Symbol) (s : ScopeStack)
    → (((lookup_local name s ≡ none)
          × ((declare name symbol s).1 ≡ true)
          × (lookup name (declare name symbol s).0 ≡ some symbol))
        ⊎ ((lookup_local name s ≢ none)
            × ((declare name symbol s).1 ≡ false)
            × ((declare name symbol s).0 ≡ s)))
      × (other ≢ name → lookup other (declare name symbol s).0 ≡ lookup other s)
unfolding lookup_local
declare_lem name other symbol s = elim (Option-cases (find_symbol name s.current)) [
  | inl fresh ↦ rw (declare_fresh name symbol s fresh) (
    inl (fresh, refl, lookup_fresh name name symbol s ∙ rw (bytes_eq_refl name)),
    λ ne. lookup_fresh name other symbol s ∙ rw (bytes_eq-ne name other ne),
  )
  | inr (old, found) ↦
      rw (declare_old name symbol s found) (inr (λ e. cc (found, e), refl, refl), λ ne. refl)
]

-- A block of the program: declarations, and blocks inside it.
pub data Block : Type 0 where
  finished : Block
  declares : Bytes → Symbol → Block → Block
  nested : Block → Block → Block

-- The calls that a block makes.
unfoldable pub run : Block → ScopeStack → ScopeStack
unfolding declare push_scope pop_scope
run finished s = s
run (declares name symbol b) s = run b (declare name symbol s).0
run (nested body b) s = run b (pop_scope (run body (push_scope s)))

pop_scope-outer :
    (t s : ScopeStack) → t.outer ≡ (push_scope s).outer → (pop_scope t).outer ≡ s.outer
unfolding pop_scope push_scope
pop_scope-outer t s h = rw (h, pop_to)

outer-run : (b : Block) (s : ScopeStack) → (run b s).outer ≡ s.outer
unfolding run
outer-run finished s = refl
outer-run (declares name symbol b) s = outer-run b _
outer-run (nested body b) s =
    outer-run b _ ∙ pop_scope-outer (run body (push_scope s)) s (outer-run body (push_scope s))

pop_scope-back : (t s : ScopeStack) → t.outer ≡ (push_scope s).outer → pop_scope t ≡ s
unfolding pop_scope push_scope
pop_scope-back t s h = rw (h, pop_to)

-- Whatever a block declares, at any depth, its end gives back the scopes that it began with.
pub pop_scope-run : (b : Block) (s : ScopeStack) → pop_scope (run b (push_scope s)) ≡ s
pop_scope-run b s = pop_scope-back (run b (push_scope s)) s (outer-run b (push_scope s))

-- `contains`, by the comparison of names.
abbrev pub contains : Bytes → List Bytes → Bool
contains name [] = false
contains name (n ∷ ns) = if bytes_eq n name then true else contains name ns

abbrev pub is_some {ℓ} : {A : Type ℓ} → Option A → Bool
is_some none = false
is_some (some a) = true

contains-append :
    (name : Bytes) (a b : List Bytes)
    → contains name (a ++ b) ≡ (if contains name a then true else contains name b)
contains-append name [] b = refl
contains-append name (x ∷ a) b = ground (arith, contains-append name a b)

contains-names_in :
    (name : Bytes) (m : Table)
    → contains name (names_in (λ _. true) m) ≡ is_some (find_symbol name m)
unfolding names_in find_symbol
contains-names_in name [] = refl
contains-names_in name ((n, s) ∷ m) = ground (arith, contains-names_in name m)

contains-names_of :
    (name : Bytes) (ms : List Table)
    → contains name (names_of (λ _. true) ms) ≡ is_some (lookup_chain name ms)
unfolding names_of lookup_chain
contains-names_of name [] = refl
contains-names_of name (m ∷ ms) =
    contains-append name (names_in (λ _. true) m) (names_of (λ _. true) ms)
    ∙ ground (arith, contains-names_in name m, contains-names_of name ms)

-- The names that are collected for suggestions are exactly those that a lookup finds.
pub contains-collect_all_names :
    (name : Bytes) (s : ScopeStack)
    → contains name (collect_all_names s []) ≡ is_some (lookup name s)
unfolding collect_all_names lookup
contains-collect_all_names name s = contains-names_of name (s.current ∷ s.outer)
