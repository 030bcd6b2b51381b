-- ===== src/Base/Dict/Laws.antt =====
-- What a key finds after a change of a dictionary.
use liva_lang.Base.{
  true, false, [], ◌∷◌, Option, none, some, Bytes, bytes_eq, bytes_eq_iff, ◌≡◌, refl, arith,
}
use liva_lang.Base.Dict.{Dict, lookup_key, put_key, modify_key, erase_key, keys}

pub bytes_eq_refl : (k : Bytes) → bytes_eq k k ≡ true
bytes_eq_refl k = (bytes_eq_iff k k).1 refl

abbrev pub map_option {ℓ} : {A : Type ℓ} → (A → A) → Option A → Option A
map_option f none = none
map_option f (some a) = some (f a)

module _ {ℓ} {A : Type ℓ} where
  pub lookup_erase_same : (k : Bytes) (d : Dict A) → lookup_key k (erase_key k d) ≡ none
  unfolding lookup_key erase_key
  lookup_erase_same k [] = refl
  lookup_erase_same k ((j, b) ∷ d) = ground (arith, lookup_erase_same k d)

  pub lookup_erase_other :
      (n k : Bytes) (d : Dict A)
      → bytes_eq k n ≡ false
      → lookup_key n (erase_key k d) ≡ lookup_key n d
  unfolding lookup_key erase_key
  lookup_erase_other n k [] h = refl
  lookup_erase_other n k ((j, b) ∷ d) h =
      ground (arith, lookup_erase_other n k d h, bytes_eq_iff j k)

  pub lookup_put_same : (k : Bytes) (a : A) (d : Dict A) → lookup_key k (put_key k a d) ≡ some a
  unfolding lookup_key put_key
  lookup_put_same k a [] = ground (arith, bytes_eq_refl k)
  lookup_put_same k a ((j, b) ∷ d) = ground (arith, lookup_put_same k a d)

  pub lookup_put_other :
      (n k : Bytes) (a : A) (d : Dict A)
      → bytes_eq k n ≡ false
      → lookup_key n (put_key k a d) ≡ lookup_key n d
  unfolding lookup_key put_key
  lookup_put_other n k a [] h = ground arith
  lookup_put_other n k a ((j, b) ∷ d) h =
      ground (arith, lookup_put_other n k a d h, bytes_eq_iff j k)

  pub lookup_modify_same :
      (k : Bytes) (f : A → A) (d : Dict A)
      → lookup_key k (modify_key k f d) ≡ map_option f (lookup_key k d)
  unfolding lookup_key modify_key
  lookup_modify_same k f [] = refl
  lookup_modify_same k f ((j, b) ∷ d) = ground (arith, lookup_modify_same k f d)

  pub lookup_modify_other :
      (n k : Bytes) (f : A → A) (d : Dict A)
      → bytes_eq k n ≡ false
      → lookup_key n (modify_key k f d) ≡ lookup_key n d
  unfolding lookup_key modify_key
  lookup_modify_other n k f [] h = refl
  lookup_modify_other n k f ((j, b) ∷ d) h =
      ground (arith, lookup_modify_other n k f d h, bytes_eq_iff j k)

  pub keys-modify : (k : Bytes) (f : A → A) (d : Dict A) → keys (modify_key k f d) ≡ keys d
  unfolding keys modify_key
  keys-modify k f [] = refl
  keys-modify k f ((j, b) ∷ d) = ground (arith, keys-modify k f d)
