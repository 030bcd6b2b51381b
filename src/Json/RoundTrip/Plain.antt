-- ===== src/Json/RoundTrip/Plain.antt =====
-- The values that are read back, and what reading them costs.
use liva_lang.Base.{ℕ, ◌+◌, Bool, true, false, [], ◌∷◌, ◌≡◌, refl, arith, Bytes, bytes_eq}
use liva_lang.Base.Decimal.{ℤ}
use liva_lang.Json.RoundTrip.Number.{IsInt64}
use liva_lang.Json.Value.{
  Value, null, boolean, integer, string, array, object, Items, nil, cons, Fields, end, field,
  insert, bytes_lt,
}

bytes_lt-asym :
    (a b : Bytes) → bytes_lt a b ≡ true → (bytes_eq b a ≡ false) × (bytes_lt b a ≡ false)
unfolding bytes_lt bytes_eq
bytes_lt-asym [] [] h = cc
bytes_lt-asym [] (y ∷ b) h = (refl, refl)
bytes_lt-asym (x ∷ a) [] h = cc
bytes_lt-asym (x ∷ a) (y ∷ b) h = ground (arith, bytes_lt-asym a b)

module _ {D : Type 0} where
  -- Every key stands below `k`.
  abbrev pub AllBelow : Fields D → Bytes → Type 0
  AllBelow end k = Unit
  AllBelow (field j v fs) k = (bytes_lt j k ≡ true) × AllBelow fs k

  abbrev pub append_field : Fields D → Bytes → Value D → Fields D
  append_field end k v = field k v end
  append_field (field j w fs) k v = field j w (append_field fs k v)

  -- Behind `acc` the keys ascend: each is above all before it.
  abbrev pub Ascends : Fields D → Fields D → Type 0
  Ascends acc end = Unit
  Ascends acc (field k v fs) = AllBelow acc k × Ascends (append_field acc k v) fs

  -- No doubles, integers of 64 bits, and the keys of every object in the order of its map.
  mutual
    pub data IsPlain : Value D → Type 0 where
      null_plain : IsPlain null
      boolean_plain : (b : Bool) → IsPlain (boolean b)
      integer_plain : (n : ℤ) → IsInt64 n → IsPlain (integer n)
      string_plain : (s : Bytes) → IsPlain (string s)
      array_plain : (vs : Items D) → ArePlain vs → IsPlain (array vs)
      object_plain : (fs : Fields D) → Ascends end fs → FieldsPlain fs → IsPlain (object fs)

    pub data ArePlain : Items D → Type 0 where
      nil_plain : ArePlain nil
      cons_plain : (v : Value D) (vs : Items D) → IsPlain v → ArePlain vs → ArePlain (cons v vs)

    pub data FieldsPlain : Fields D → Type 0 where
      end_plain : FieldsPlain end
      field_plain :
          (k : Bytes) (v : Value D) (fs : Fields D)
          → IsPlain v
          → FieldsPlain fs
          → FieldsPlain (field k v fs)

  pub insert-AllBelow :
      (k : Bytes) (v : Value D) (fs : Fields D)
      → AllBelow fs k
      → insert k v fs ≡ append_field fs k v
  unfolding insert
  insert-AllBelow k v end h = refl
  insert-AllBelow k v (field j w fs) h =
      let (ne, nlt) = bytes_lt-asym j k h.0 in rw (ne, nlt, insert-AllBelow k v fs h.1)

  -- The calls that reading a value takes.
  abbrev mutual
    pub cost : Value D → ℕ
    cost (array vs) = 2 + cost_items vs
    cost (object fs) = 2 + cost_fields fs
    cost _ = 1

    pub cost_items : Items D → ℕ
    cost_items nil = 0
    cost_items (cons v vs) = 1 + cost v + cost_items vs

    pub cost_fields : Fields D → ℕ
    cost_fields end = 0
    cost_fields (field k v fs) = 1 + cost v + cost_fields fs
