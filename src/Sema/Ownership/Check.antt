-- ===== src/Sema/Ownership/Check.antt =====
-- What holds at the end of `check`, and of a scope.
use liva_lang.Base.{
  ℕ, true, false, List, [], ◌∷◌, Option, none, some, Bytes, bytes_eq, length, ◌==◌, ◌≡◌, ◌≢◌, refl,
  sym, ap, ◌∙◌, arith, inl, inr, Bool-cases,
}
use mathlib.Core.Path.{subst}
use liva_lang.Base.Dict.{Dict, lookup_key, keys}
use liva_lang.Ast.Nodes.{Node, Nodes}
use liva_lang.Sema.Ownership.Info.{OwnershipInfo, is_moved, has_borrow}
use liva_lang.Sema.Ownership.Info.Laws.{Claim, Shows}
use liva_lang.Sema.Ownership.Scopes.{
  Scopes, Checker, deref, get_info, push_scope, pop_scope, follow, innermost, drop_scope_variables,
  tail,
}
use liva_lang.Sema.Ownership.Types.{Setting, contains}
use liva_lang.Sema.Ownership.Visit.{unit_setting, check, visit, visit_all, leave}
use liva_lang.Sema.Ownership.Live.{scope_names, Live, is_live-deref}
use liva_lang.Sema.Ownership.Shown.{Shown, AllShown, EntriesShown}
use liva_lang.Sema.Ownership.Keeps.{Keeps, outer}
use liva_lang.Sema.Ownership.Keeps.Leave.{drop_each-flat}
use liva_lang.Sema.Ownership.Keeps.Scoped.{push-Live}
use liva_lang.Sema.Ownership.Keeps.Visit.{visit-Keeps, visit_all-Keeps}

-- A checker that has seen nothing.
abbrev pub new_checker : Checker
new_checker = record {
  scopes = [];
  flat = [];
  type_params = [];
  last_ref_borrow = ([], false);
  reports = [];
}

-- The state of `check` when the declarations have been visited
abbrev pub visited : List Bytes → List Bytes → Nodes → Checker
visited classes drops decls =
    visit_all (unit_setting classes drops decls) decls (push_scope new_checker)

visited-Keeps :
    (classes drops : List Bytes) (decls : Nodes)
    → Keeps (push_scope new_checker) (visited classes drops decls)
visited-Keeps classes drops decls =
    visit_all-Keeps (unit_setting classes drops decls) decls (push_scope new_checker)

new_checker-Live : Live new_checker
new_checker-Live n l e = unfold lookup_key in ground arith

check-visited :
    (classes drops : List Bytes) (decls : Nodes)
    → check classes drops decls new_checker ≡ pop_scope (visited classes drops decls)
unfolding check
check-visited classes drops decls = refl

pop_scope-flat : (d : Checker) → (pop_scope d).flat ≡ d.flat
unfolding pop_scope
pop_scope-flat d = refl

no_scopes : (ds : Scopes) → outer (scope_names ds) ≡ [] → tail ds ≡ []
unfolding scope_names
no_scopes [] e = refl
no_scopes (d ∷ []) e = refl
no_scopes (d ∷ f ∷ ds) e = ground (arith, e)

pop_scope-empty : (d : Checker) → outer (scope_names d.scopes) ≡ [] → (pop_scope d).scopes ≡ []
unfolding pop_scope
pop_scope-empty d e = no_scopes d.scopes e

check-scopes :
    (classes drops : List Bytes) (decls : Nodes)
    → (check classes drops decls new_checker).scopes ≡ []
check-scopes classes drops decls =
    ap (λ (d : Checker). d.scopes) (check-visited classes drops decls)
    ∙ pop_scope-empty (visited classes drops decls)
        ((visited-Keeps classes drops decls).names ∙ (unfold scope_names push_scope in refl))

-- A pointer that `allVariables_` of a new checker has behind `check` led to a variable when all
-- declarations were visited and the global scope was not yet popped; behind `check` no scope is on
-- the stack, and the pointer dangles.
pub check-deref :
    (classes drops : List Bytes) (decls : Nodes) (name : Bytes) (l : ℕ)
    → lookup_key name (check classes drops decls new_checker).flat ≡ some l
    → (deref name l (visited classes drops decls).scopes ≢ none)
      × ((check classes drops decls new_checker).scopes ≡ [])
      × (deref name l (check classes drops decls new_checker).scopes ≡ none)
check-deref classes drops decls name l e =
    let found =
      ap (lookup_key name) (
        sym (
          ap (λ (d : Checker). d.flat) (check-visited classes drops decls)
          ∙ pop_scope-flat (visited classes drops decls)))
      ∙ e in
    let empty = check-scopes classes drops decls in
    (
      is_live-deref name l _ (
          (visited-Keeps classes drops decls).live (push-Live new_checker new_checker-Live) name l
            found),
      empty,
      ap (deref name l) empty ∙ (unfold deref in refl),
    )

-- The variables of a scope that shows, and of a stack that shows.
lookup_key-Shown :
    (name : Bytes) (d : Dict OwnershipInfo) (i : OwnershipInfo)
    → EntriesShown d
    → lookup_key name d ≡ some i
    → Shown i
unfolding lookup_key
lookup_key-Shown name [] i h e = ground arith
lookup_key-Shown name ((j, k) ∷ d) i h e = elim (Bool-cases (bytes_eq j name)) [
  | inl t ↦ let same : k ≡ i = ground arith in subst Shown same h.0
  | inr t ↦ lookup_key-Shown name d i h.1 (ground arith)
]

pub deref-Shown :
    (name : Bytes) (l : ℕ) (ds : Scopes) (i : OwnershipInfo)
    → AllShown ds
    → deref name l ds ≡ some i
    → Shown i
unfolding deref
deref-Shown name l [] i h e = ground arith
deref-Shown name l (d ∷ ds) i h e = elim (Bool-cases (length ds == l)) [
  | inl t ↦ lookup_key-Shown name d i h.0 (ground arith)
  | inr t ↦ deref-Shown name l ds i h.1 (ground arith)
]

follow-Shown :
    (name : Bytes) (p : Option ℕ) (ds : Scopes) (i : OwnershipInfo)
    → AllShown ds
    → follow name p ds ≡ some i
    → Shown i
follow-Shown name none ds i h e = ground arith
follow-Shown name (some l) ds i h e = deref-Shown name l ds i h e

pub get_info-Shown :
    (name : Bytes) (c : Checker) (i : OwnershipInfo)
    → AllShown c.scopes
    → get_info name c ≡ some i
    → Shown i
unfolding get_info
get_info-Shown name c i h e = follow-Shown name (lookup_key name c.flat) c.scopes i h e

-- A mutable borrow is the only one, and a moved variable has none.
abbrev pub IsExclusive : OwnershipInfo → Type 0
IsExclusive i =
    (i.has_mutable_borrow ≡ true → i.borrow_count ≡ 0)
    × (is_moved i.state ≡ true → has_borrow i ≡ false)

Shows-IsExclusive : (i : OwnershipInfo) (c : Claim) → Shows i c → IsExclusive i
Shows-IsExclusive i Claim.free h = (λ e. h.1, λ e. rw (h.1, h.2) refl)
Shows-IsExclusive i Claim.exclusive h = (λ e. h.1, λ e. ground (arith, h.0))
Shows-IsExclusive i Claim.moved h = (λ e. h.1, λ e. rw (h.1, h.2) refl)
Shows-IsExclusive i Claim.dropped h = (λ e. h.1, λ e. rw (h.1, h.2) refl)
Shows-IsExclusive i (Claim.shared n) h = (λ e. ground (arith, h.2), λ e. ground (arith, h.0))

-- From a state in which every variable shows a claim, the visit of any tree leads to one in which
-- what `getInfo` finds is exclusive: with a mutable borrow there is no other borrow, and a variable
-- that was moved is not borrowed.
pub visit-IsExclusive :
    (s : Setting) (n : Node) (c : Checker) (name : Bytes) (i : OwnershipInfo)
    → AllShown c.scopes
    → get_info name (visit s n c) ≡ some i
    → IsExclusive i
visit-IsExclusive s n c name i h e =
    let p = get_info-Shown name (visit s n c) i ((visit-Keeps s n c).shown h) e in
    Shows-IsExclusive i p.0 p.1

follow-none :
    (name : Bytes) (p : Option ℕ) (ds : Scopes)
    → ((l : ℕ) → p ≡ some l → ⊥)
    → follow name p ds ≡ none
follow-none name none ds h = refl
follow-none name (some l) ds h = absurd (h l refl)

leave-flat :
    (d : Checker) (n : Bytes) (l : ℕ)
    → lookup_key n (leave d).flat ≡ some l
    → (lookup_key n d.flat ≡ some l) × (contains n (keys (innermost d.scopes)) ≡ false)
unfolding leave pop_scope drop_scope_variables
leave-flat d n l e = drop_each-flat (keys (innermost d.scopes)) d n l e

-- Behind the end of a scope a name that it declared is not tracked, whatever the scopes around it
-- declare under that name.
pub get_info-leave :
    (name : Bytes) (d : Checker)
    → contains name (keys (innermost d.scopes)) ≡ true
    → get_info name (leave d) ≡ none
unfolding get_info
get_info-leave name d h =
    follow-none name (lookup_key name (leave d).flat) (leave d).scopes
      (λ l e. ground (arith, h, gone l e))
  where
    gone :
        (l : ℕ)
        → lookup_key name (leave d).flat ≡ some l
        → contains name (keys (innermost d.scopes)) ≡ false
    gone l e = (leave-flat d name l e).1
