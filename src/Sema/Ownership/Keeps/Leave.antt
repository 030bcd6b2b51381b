-- ===== src/Sema/Ownership/Keeps/Leave.antt =====
-- The end of a scope: `dropScopeVariables` and `popOwnershipScope`.
use mathlib.Core.List.{append-nil}
use mathlib.Core.Path.{subst}
use liva_lang.Base.{
  ℕ, Bool, false, ◌&&◌, not, List, [], ◌∷◌, Option, none, some, Bytes, bytes_eq, bytes_eq_iff, ◌≡◌,
  refl, sym, ap, ◌∙◌, arith, inl, inr, Bool-cases,
}
use liva_lang.Base.Dict.{Dict, lookup_key, keys}
use liva_lang.Base.Dict.Laws.{lookup_erase_same, lookup_erase_other, keys-modify}
use liva_lang.Sema.Ownership.Info.{OwnershipInfo, drop_info, release_borrows, release_borrow}
use liva_lang.Sema.Ownership.Types.{contains}
use liva_lang.Sema.Ownership.Scopes.{
  Scopes, Checker, change, change_at, release_all, release_one, give_back, forget, change_top,
  innermost, is_empty, drop_variable, drop_each, drop_scope_variables, pop_scope, tail,
}
use liva_lang.Sema.Ownership.Live.{scope_names, Live, LiveIn, assign_at-scope_names, pop-LiveIn}
use liva_lang.Sema.Ownership.Shown.{
  AllShown, modify_key-Shown, drop_info-Shown, release_borrows-Shown, release_borrow-Shown,
}
use liva_lang.Sema.Ownership.Keeps.{Keeps, Keeps-refl, Keeps-trans, KeepsShown, change-Keeps, outer}
use liva_lang.Sema.Ownership.Visit.{leave}

-- Nothing is declared and no pointer is changed.
record Stays (c d : Checker) : Type 0 where
  pub same_names : scope_names d.scopes ≡ scope_names c.scopes
  pub same_flat : d.flat ≡ c.flat
  pub keeps : Keeps c d

Stays-refl : (c : Checker) → Stays c c
Stays-refl c = record { same_names = refl; same_flat = refl; keeps = Keeps-refl c }

Stays-trans : {b c d : Checker} → Stays b c → Stays c d → Stays b d
Stays-trans h k = record {
  same_names = k.same_names ∙ h.same_names;
  same_flat = k.same_flat ∙ h.same_flat;
  keeps = Keeps-trans h.keeps k.keeps;
}

change_at-same :
    (p : Option ℕ) (name : Bytes) (f : OwnershipInfo → OwnershipInfo) (c : Checker)
    → (scope_names (change_at p name f c).scopes ≡ scope_names c.scopes)
      × ((change_at p name f c).flat ≡ c.flat)
change_at-same none name f c = (refl, refl)
change_at-same (some l) name f c = (assign_at-scope_names name l f c.scopes, refl)

change-Stays :
    (name : Bytes) (f : OwnershipInfo → OwnershipInfo) (c : Checker)
    → KeepsShown f
    → Stays c (change name f c)
change-Stays name f c g =
    let p = change_at-same (lookup_key name c.flat) name f c in
    record {
      same_names = unfold change in p.0;
      same_flat = unfold change in p.1;
      keeps = change-Keeps name f c g;
    }

release_one-Stays : (name : Bytes) (m : Bool) (c : Checker) → Stays c (release_one name m c)
release_one-Stays name m c =
    unfold release_one in change-Stays name (release_borrow m) c (release_borrow-Shown m)

pub release_one-Keeps : (name : Bytes) (m : Bool) (c : Checker) → Keeps c (release_one name m c)
release_one-Keeps name m c = (release_one-Stays name m c).keeps

give_back-Stays : (o : Option OwnershipInfo) (c : Checker) → Stays c (give_back o c)
give_back-Stays none c = Stays-refl c
give_back-Stays (some i) c = elim (Bool-cases (i.is_ref_binding && not (is_empty i.borrows_name))) [
  | inl t ↦ rw t (release_one-Stays i.borrows_name i.borrows_mutable c)
  | inr t ↦ rw t (Stays-refl c)
]

change_top-names : (name : Bytes) (ds : Scopes) → scope_names (change_top name ds) ≡ scope_names ds
unfolding scope_names
change_top-names name [] = refl
change_top-names name (d ∷ ds) =
    ap (λ (ks : List Bytes). ks ∷ scope_names ds) (keys-modify name drop_info d)

change_top-Shown : (name : Bytes) (ds : Scopes) → AllShown ds → AllShown (change_top name ds)
change_top-Shown name [] h = tt
change_top-Shown name (d ∷ ds) h = (modify_key-Shown name drop_info d drop_info-Shown h.0, h.1)

change_top-Stays :
    (name : Bytes) (c : Checker) → Stays c (record c { scopes = change_top name c.scopes })
change_top-Stays name c = record {
  same_names = change_top-names name c.scopes;
  same_flat = refl;
  keeps = record {
    names = ap outer (change_top-names name c.scopes);
    params = refl;
    live = λ h.
        subst (λ (kss : List (List Bytes)). LiveIn kss c.flat)
          (sym (change_top-names name c.scopes)) h;
    shown = change_top-Shown name c.scopes;
    log = ([], sym (append-nil c.reports));
  };
}

release_all-Stays : (name : Bytes) (c : Checker) → Stays c (release_all name c)
release_all-Stays name c =
    unfold release_all in change-Stays name release_borrows c release_borrows-Shown

-- A turn of the loop, before the pointer is erased.
abbrev settled : Bytes → Checker → Checker
settled name c =
    let c1 = release_all name (record c { scopes = change_top name c.scopes }) in
    give_back (lookup_key name (innermost c1.scopes)) c1

settled-Stays : (name : Bytes) (c : Checker) → Stays c (settled name c)
settled-Stays name c =
    Stays-trans (change_top-Stays name c)
      (Stays-trans (release_all-Stays name _) (give_back-Stays _ _))

-- A pointer that is left when one is erased.
forget-flat :
    (name : Bytes) (c : Checker) (n : Bytes) (l : ℕ)
    → lookup_key n (forget name c).flat ≡ some l
    → (lookup_key n c.flat ≡ some l) × (bytes_eq name n ≡ false)
unfolding forget
forget-flat name c n l e = elim (Bool-cases (bytes_eq name n)) [
  | inl t ↦ ground (arith, lookup_erase_same name c.flat, (bytes_eq_iff name n).0 t)
  | inr t ↦ (ground (arith, lookup_erase_other n name c.flat t), t)
]

forget-Keeps : (name : Bytes) (c : Checker) → Keeps c (forget name c)
forget-Keeps name c = record {
  names = unfold forget in refl;
  params = unfold forget in refl;
  live = λ h n l e. unfold forget in h n l (forget-flat name c n l e).0;
  shown = unfold forget in λ h. h;
  log = ([], unfold forget in sym (append-nil c.reports));
}

drop_variable-Keeps : (name : Bytes) (c : Checker) → Keeps c (drop_variable name c)
unfolding drop_variable
drop_variable-Keeps name c =
    Keeps-trans (settled-Stays name c).keeps (forget-Keeps name (settled name c))

drop_variable-names :
    (name : Bytes) (c : Checker) → scope_names (drop_variable name c).scopes ≡ scope_names c.scopes
unfolding drop_variable forget
drop_variable-names name c = (settled-Stays name c).same_names

drop_variable-flat :
    (name : Bytes) (c : Checker) (n : Bytes) (l : ℕ)
    → lookup_key n (drop_variable name c).flat ≡ some l
    → (lookup_key n c.flat ≡ some l) × (bytes_eq name n ≡ false)
unfolding drop_variable
drop_variable-flat name c n l e =
    subst (λ (flat : Dict ℕ). (lookup_key n flat ≡ some l) × (bytes_eq name n ≡ false))
      (settled-Stays name c).same_flat (forget-flat name (settled name c) n l e)

pub drop_each-Keeps : (ns : List Bytes) (c : Checker) → Keeps c (drop_each ns c)
unfolding drop_each
drop_each-Keeps [] c = Keeps-refl c
drop_each-Keeps (n ∷ ns) c =
    Keeps-trans (drop_variable-Keeps n c) (drop_each-Keeps ns (drop_variable n c))

pub drop_each-names :
    (ns : List Bytes) (c : Checker) → scope_names (drop_each ns c).scopes ≡ scope_names c.scopes
unfolding drop_each
drop_each-names [] c = refl
drop_each-names (n ∷ ns) c = drop_each-names ns (drop_variable n c) ∙ drop_variable-names n c

pub drop_each-flat :
    (ns : List Bytes) (c : Checker) (n : Bytes) (l : ℕ)
    → lookup_key n (drop_each ns c).flat ≡ some l
    → (lookup_key n c.flat ≡ some l) × (contains n ns ≡ false)
unfolding drop_each contains
drop_each-flat [] c n l e = (e, refl)
drop_each-flat (m ∷ ns) c n l e =
    let p = drop_each-flat ns (drop_variable m c) n l e in
    let q = drop_variable-flat m c n l p.0 in (q.0, rw (q.1, p.1) refl)

pub pop_names : (ds : Scopes) → scope_names (tail ds) ≡ outer (scope_names ds)
unfolding scope_names
pop_names [] = refl
pop_names (d ∷ ds) = refl

pub pop-Shown : (ds : Scopes) → AllShown ds → AllShown (tail ds)
pop-Shown [] h = tt
pop-Shown (d ∷ ds) h = h.1

-- The pointers behind the end of a scope.
leave_live :
    (ds : Scopes) (flat flat2 : Dict ℕ)
    → LiveIn (scope_names ds) flat
    → ((n : Bytes) (l : ℕ)
        → lookup_key n flat2 ≡ some l
        → (lookup_key n flat ≡ some l) × (contains n (keys (innermost ds)) ≡ false))
    → LiveIn (outer (scope_names ds)) flat2
unfolding scope_names
leave_live [] flat flat2 h g = λ n l e. h n l (g n l e).0
leave_live (d ∷ ds) flat flat2 h g = pop-LiveIn (keys d) (scope_names ds) flat flat2 h g

-- The scopes are those around the innermost one, with their names.
pub leave-names : (d : Checker) → scope_names (leave d).scopes ≡ outer (scope_names d.scopes)
unfolding leave pop_scope drop_scope_variables
leave-names d =
    pop_names (drop_scope_variables d).scopes
    ∙ ap outer (drop_each-names (keys (innermost d.scopes)) d)

pub leave-Live : (d : Checker) → Live d → Live (leave d)
leave-Live d h =
    subst (λ (kss : List (List Bytes)). LiveIn kss (leave d).flat) (sym (leave-names d))
      (leave_live d.scopes d.flat (leave d).flat h (
        unfold leave pop_scope drop_scope_variables in
        drop_each-flat (keys (innermost d.scopes)) d))
