-- ===== src/Json/Value.antt =====
-- `JSONValue`: its data, `operator[]`, `hasKey`, `set`, `push` and the readers with a default.
-- A value has one kind; doubles are of a type `D`.
use liva_lang.Base.{
  Bool, true, false, [], ◌∷◌, Option, none, some, Bytes, bytes_eq, ltb, ◌==◌, if◌then◌else◌,
}
use liva_lang.Base.Decimal.{ℤ}

-- `arrayVal_` and `objectVal_` (a `std::map`, whose keys ascend) are lists in the block.
mutual
  pub data Value (D : Type 0) : Type 0 where
    null : Value D
    boolean : Bool → Value D
    integer : ℤ → Value D
    double : D → Value D
    string : Bytes → Value D
    array : Items D → Value D
    object : Fields D → Value D

  pub data Items (D : Type 0) : Type 0 where
    nil : Items D
    cons : Value D → Items D → Items D

  pub data Fields (D : Type 0) : Type 0 where
    end : Fields D
    field : Bytes → Value D → Fields D → Fields D

-- `operator<` of `std::string`: bytes are compared as unsigned.
unfoldable pub bytes_lt : Bytes → Bytes → Bool
bytes_lt [] [] = false
bytes_lt [] (y ∷ ys) = true
bytes_lt (x ∷ xs) [] = false
bytes_lt (x ∷ xs) (y ∷ ys) = if ltb x y then true else (if x == y then bytes_lt xs ys else false)

module _ {D : Type 0} where
  -- `push_back`
  unfoldable pub snoc : Items D → Value D → Items D
  snoc nil v = cons v nil
  snoc (cons w vs) v = cons w (snoc vs v)

  unfoldable pub find_field : Bytes → Fields D → Option (Value D)
  find_field k end = none
  find_field k (field j v fs) = if bytes_eq j k then some v else find_field k fs

  -- `objectVal_[key] = val`
  unfoldable pub insert : Bytes → Value D → Fields D → Fields D
  insert k v end = field k v end
  insert k v (field j w fs) =
      if bytes_eq k j
      then field k v fs
      else if bytes_lt k j
      then field k v (field j w fs)
      else field j w (insert k v fs)

  -- `operator[]`: null for a missing key, and for what is no object.
  unfoldable pub get : Value D → Bytes → Value D
  unfolding find_field
  get (object fs) k = elim (find_field k fs) [ none ↦ null | some v ↦ v ]
  get _ k = null

  unfoldable pub has_key : Value D → Bytes → Bool
  unfolding find_field
  has_key (object fs) k = elim (find_field k fs) [ none ↦ false | some v ↦ true ]
  has_key _ k = false

  unfoldable pub set : Bytes → Value D → Value D → Value D
  unfolding insert
  set k v (object fs) = object (insert k v fs)
  set k v w = w

  unfoldable pub push : Value D → Value D → Value D
  unfolding snoc
  push v (array vs) = array (snoc vs v)
  push v w = w

  unfoldable pub get_string : Value D → Bytes
  get_string (string s) = s
  get_string _ = []

  unfoldable pub get_bool : Bool → Value D → Bool
  get_bool d (boolean b) = b
  get_bool d _ = d

  unfoldable pub get_integer : ℤ → Value D → ℤ
  get_integer d (integer n) = n
  get_integer d _ = d
