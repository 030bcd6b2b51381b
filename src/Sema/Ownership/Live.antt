-- ===== src/Sema/Ownership/Live.antt =====
-- The pointers of `allVariables_` and the scopes that they point into.
use liva_lang.Base.{
  ℕ, suc, ◌<◌, Bool, true, false, List, [], ◌∷◌, none, some, Bytes, bytes_eq, bytes_eq_iff, length,
  ◌==◌, if◌then◌else◌, ◌≡◌, ◌≢◌, refl, ap, arith, inl, inr, Bool-cases,
}
use liva_lang.Base.Dict.{Dict, lookup_key, put_key, keys}
use liva_lang.Base.Dict.Laws.{bytes_eq_refl, lookup_put_same, lookup_put_other, keys-modify}
use liva_lang.Sema.Ownership.Info.{OwnershipInfo}
use liva_lang.Sema.Ownership.Types.{contains}
use liva_lang.Sema.Ownership.Scopes.{Scopes, Checker, deref, assign_at, insert_in}

-- The names of each scope.
unfoldable pub scope_names : Scopes → List (List Bytes)
unfolding keys
scope_names [] = []
scope_names (d ∷ ds) = keys d ∷ scope_names ds

-- The scope of that number has the name.
unfoldable pub is_live : Bytes → ℕ → List (List Bytes) → Bool
unfolding contains
is_live name l [] = false
is_live name l (ks ∷ kss) = if length kss == l then contains name ks else is_live name l kss

-- Each pointer of `flat` is to a name of a scope.
abbrev pub LiveIn : List (List Bytes) → Dict ℕ → Type 0
LiveIn kss flat = (name : Bytes) (l : ℕ) → lookup_key name flat ≡ some l → is_live name l kss ≡ true

abbrev pub Live : Checker → Type 0
Live c = LiveIn (scope_names c.scopes) c.flat

pub length-scope_names : (ds : Scopes) → length (scope_names ds) ≡ length ds
unfolding scope_names
length-scope_names [] = refl
length-scope_names (d ∷ ds) = ap suc (length-scope_names ds)

contains-lookup_key :
    (name : Bytes) (d : Dict OwnershipInfo)
    → contains name (keys d) ≡ true
    → lookup_key name d ≢ none
unfolding contains keys lookup_key
contains-lookup_key name [] h = ground arith
contains-lookup_key name ((j, i) ∷ d) h = ground (arith, contains-lookup_key name d)

pub is_live-deref :
    (name : Bytes) (l : ℕ) (ds : Scopes)
    → is_live name l (scope_names ds) ≡ true
    → deref name l ds ≢ none
unfolding is_live scope_names deref
is_live-deref name l [] h = ground arith
is_live-deref name l (d ∷ ds) h =
    ground (arith, length-scope_names ds, contains-lookup_key name d, is_live-deref name l ds)

pub assign_at-scope_names :
    (name : Bytes) (l : ℕ) (f : OwnershipInfo → OwnershipInfo) (ds : Scopes)
    → scope_names (assign_at name l f ds) ≡ scope_names ds
unfolding scope_names assign_at
assign_at-scope_names name l f [] = refl
assign_at-scope_names name l f (d ∷ ds) =
    ground (arith, keys-modify name f d, assign_at-scope_names name l f ds)

pub is_live-below :
    (name : Bytes) (l : ℕ) (kss : List (List Bytes)) → is_live name l kss ≡ true → l < length kss
unfolding is_live
is_live-below name l [] h = ground arith
is_live-below name l (ks ∷ kss) h = ground (arith, is_live-below name l kss)

contains_put_same :
    (k : Bytes) (i : OwnershipInfo) (d : Dict OwnershipInfo)
    → contains k (keys (put_key k i d)) ≡ true
unfolding contains keys put_key
contains_put_same k i [] = ground (arith, bytes_eq_refl k)
contains_put_same k i ((j, b) ∷ d) = ground (arith, contains_put_same k i d)

contains_put :
    (n k : Bytes) (i : OwnershipInfo) (d : Dict OwnershipInfo)
    → contains n (keys d) ≡ true
    → contains n (keys (put_key k i d)) ≡ true
unfolding contains keys put_key
contains_put n k i [] h = ground arith
contains_put n k i ((j, b) ∷ d) h = ground (arith, contains_put n k i d)

put-LiveIn :
    (k : Bytes) (i : OwnershipInfo) (d : Dict OwnershipInfo) (ds : Scopes) (flat : Dict ℕ)
    → LiveIn (scope_names (d ∷ ds)) flat
    → LiveIn (scope_names (put_key k i d ∷ ds)) (put_key k (length ds) flat)
put-LiveIn k i d ds flat h n l e = elim (Bool-cases (bytes_eq k n)) [
  | inl t ↦
      unfold is_live scope_names in
      (ground (
        arith,
        (bytes_eq_iff k n).0 t,
        lookup_put_same k (length ds) flat,
        length-scope_names ds,
        contains_put_same k i d,
      ))
  | inr t ↦
      unfold is_live scope_names in
      ground (arith, lookup_put_other n k (length ds) flat t, h n l, contains_put n k i d)
]

-- The pointer to a new entry of the innermost scope.
pub insert_in-Live :
    (ds : Scopes) (name : Bytes) (i : OwnershipInfo) (c : Checker)
    → LiveIn (scope_names ds) c.flat
    → Live c
    → Live (insert_in ds name i c)
insert_in-Live [] name i c g h = h
insert_in-Live (d ∷ ds) name i c g h = put-LiveIn name i d ds c.flat g

-- A new scope moves no pointer.
pub push-LiveIn :
    (kss : List (List Bytes)) (flat : Dict ℕ) → LiveIn kss flat → LiveIn ([] ∷ kss) flat
push-LiveIn kss flat h n l e =
    unfold is_live contains in ground (arith, h n l e, is_live-below n l kss (h n l e))

-- The pointers that are left when all those to the innermost scope are erased.
pub pop-LiveIn :
    (ks : List Bytes) (kss : List (List Bytes)) (flat flat2 : Dict ℕ)
    → LiveIn (ks ∷ kss) flat
    → ((n : Bytes) (l : ℕ)
        → lookup_key n flat2 ≡ some l
        → (lookup_key n flat ≡ some l) × (contains n ks ≡ false))
    → LiveIn kss flat2
unfolding is_live
pop-LiveIn ks kss flat flat2 h g n l e = let p = g n l e in ground (arith, h n l p.0, p.1)
