-- ===== src/Json/Members.antt =====
-- The members of an object: `set`, `operator[]`, `hasKey`, and the order of the keys.
use mathlib.Core.Path.{subst}
use liva_lang.Base.{
  true, false, ◌||◌, [], ◌∷◌, some, ◌≡◌, refl, sym, ◌∙◌, ap, inl, inr, arith, Bytes, bytes_eq,
  bytes_eq_iff, if◌then◌else◌, Bool-cases,
}
use liva_lang.Json.Value.{
  Value, object, Fields, end, field, bytes_lt, find_field, insert, get, has_key, set,
}

bytes_lt_trans : (a b c : Bytes) → bytes_lt a b ≡ true → bytes_lt b c ≡ true → bytes_lt a c ≡ true
unfolding bytes_lt
bytes_lt_trans [] [] c h k = cc
bytes_lt_trans (x ∷ a) [] c h k = cc
bytes_lt_trans [] (y ∷ b) [] h k = cc
bytes_lt_trans [] (y ∷ b) (z ∷ c) h k = refl
bytes_lt_trans (x ∷ a) (y ∷ b) [] h k = cc
bytes_lt_trans (x ∷ a) (y ∷ b) (z ∷ c) h k = ground (arith, bytes_lt_trans a b c)

bytes_lt_total : (a b : Bytes) → bytes_eq a b ≡ false → bytes_lt a b ≡ false → bytes_lt b a ≡ true
unfolding bytes_lt bytes_eq
bytes_lt_total [] [] h k = cc
bytes_lt_total [] (y ∷ b) h k = cc
bytes_lt_total (x ∷ a) [] h k = refl
bytes_lt_total (x ∷ a) (y ∷ b) h k = ground (arith, bytes_lt_total a b)

bytes_eq_same : (a b c : Bytes) → bytes_eq a b ≡ true → bytes_eq a c ≡ bytes_eq b c
bytes_eq_same a b c h = ap (λ (t : Bytes). bytes_eq t c) ((bytes_eq_iff a b).0 h)

bytes_eq_join : (a b c : Bytes) → bytes_eq a c ≡ true → bytes_eq b c ≡ true → bytes_eq a b ≡ true
bytes_eq_join a b c h k =
    (bytes_eq_iff a b).1 ((bytes_eq_iff a c).0 h ∙ sym ((bytes_eq_iff b c).0 k))

module _ {D : Type 0} where
  -- Every key stands above `k`.
  abbrev pub AllAbove : Bytes → Fields D → Type 0
  AllAbove k end = Unit
  AllAbove k (field j w fs) = (bytes_lt k j ≡ true) × AllAbove k fs

  abbrev pub AreSorted : Fields D → Type 0
  AreSorted end = Unit
  AreSorted (field j w fs) = AllAbove j fs × AreSorted fs

  AllAbove-below :
      (k j : Bytes) (fs : Fields D) → bytes_lt k j ≡ true → AllAbove j fs → AllAbove k fs
  AllAbove-below k j end h a = tt
  AllAbove-below k j (field i w fs) h a = (bytes_lt_trans k j i h a.0, AllAbove-below k j fs h a.1)

  AllAbove-insert :
      (j k : Bytes) (v : Value D) (fs : Fields D)
      → bytes_lt j k ≡ true
      → AllAbove j fs
      → AllAbove j (insert k v fs)
  unfolding insert
  AllAbove-insert j k v end h a = (h, tt)
  AllAbove-insert j k v (field i w fs) h a = elim (Bool-cases (bytes_eq k i)) [
    | inl same ↦ rw same (h, a.1)
    | inr differ ↦ elim (Bool-cases (bytes_lt k i)) [
      | inl below ↦ rw (differ, below) (h, a)
      | inr above ↦ rw (differ, above) (a.0, AllAbove-insert j k v fs h a.1)
    ]
  ]

  insert-AreSorted :
      (k : Bytes) (v : Value D) (fs : Fields D) → AreSorted fs → AreSorted (insert k v fs)
  unfolding insert
  insert-AreSorted k v end h = (tt, tt)
  insert-AreSorted k v (field j w fs) h = elim (Bool-cases (bytes_eq k j)) [
    | inl same ↦
        rw same (subst (λ (b : Bytes). AllAbove b fs) (sym ((bytes_eq_iff k j).0 same)) h.0, h.1)
    | inr differ ↦ elim (Bool-cases (bytes_lt k j)) [
      | inl below ↦ rw (differ, below) ((below, AllAbove-below k j fs below h.0), h)
      | inr above ↦
          rw (differ, above)
            (
              AllAbove-insert j k v fs (bytes_lt_total k j differ above) h.0,
              insert-AreSorted k v fs h.1,
            )
    ]
  ]

  find_field-insert :
      (k j : Bytes) (v : Value D) (fs : Fields D)
      → find_field j (insert k v fs) ≡ (if bytes_eq k j then some v else find_field j fs)
  unfolding find_field insert
  find_field-insert k j v end = refl
  find_field-insert k j v (field i w fs) =
      ground (arith, bytes_eq_same k i j, bytes_eq_join k i j, find_field-insert k j v fs)

  -- After `set` on an object whose keys ascend, they ascend again, `operator[]` gives the new value
  -- at its key and the old one at every other key, and `hasKey` finds the new key and the old ones.
  pub set-get-has_key :
      (k j : Bytes) (v : Value D) (fs : Fields D)
      → AreSorted fs
      → (gs : Fields D) × (set k v (object fs) ≡ object gs)
        × AreSorted gs
        × (get (object gs) j ≡ (if bytes_eq k j then v else get (object fs) j))
        × (has_key (object gs) j ≡ (bytes_eq k j || has_key (object fs) j))
  unfolding set get has_key
  set-get-has_key k j v fs h = (
    insert k v fs,
    refl,
    insert-AreSorted k v fs h,
    ground (arith, find_field-insert k j v fs),
    ground (arith, find_field-insert k j v fs),
  )
