-- ===== src/Json/Parse.antt =====
-- `parseValue`, `parseArray`, `parseObject`, `parseBool`, `parseNull` and `parse` of the JSON
-- parser, with fuel for the calls. `strtod` is a parameter.
use liva_lang.Base.{
  ℕ, zero, suc, ◌+◌, ◌*◌, true, false, ◌||◌, [], ◌∷◌, Option, none, some, Bytes, codes, bytes_eq,
  ◌==◌, if◌then◌else◌, length, take, drop,
}
use liva_lang.Base.Decimal.{is_digit}
use liva_lang.Base.Strtoul.{strtoul16}
use liva_lang.Json.Scan.{
  empty_input, unexpected_end, array_separator, object_key, object_colon, object_separator,
  invalid_literal, out_of_fuel, unexpected_character, Result, ok, err, ◌>>=◌, skip_whitespace,
  parse_string, encode, Number, whole, floating, parse_number,
}
use liva_lang.Json.Value.{
  Value, null, boolean, integer, double, string, array, object, Items, nil, Fields, end, snoc,
  insert,
}

module _ {D : Type 0} (strtod : Bytes → D) where
  -- `input_.compare(pos_, n, word) == 0`, and the value for that word
  unfoldable pub read_word :
      Bytes → Value D → Result (Value D × Bytes) → Bytes → Result (Value D × Bytes)
  unfolding bytes_eq
  read_word word v other r =
      if bytes_eq (take (length word) r) word then ok (v, drop (length word) r) else other

  unfoldable pub parse_bool : Bytes → Result (Value D × Bytes)
  unfolding read_word codes
  parse_bool r =
      read_word (codes "true") (boolean true)
        (read_word (codes "false") (boolean false) (err invalid_literal) r) r

  unfoldable pub parse_null : Bytes → Result (Value D × Bytes)
  unfolding read_word codes
  parse_null r = read_word (codes "null") null (err invalid_literal) r

  abbrev pub of_number : Number → Value D
  of_number (whole n) = integer n
  of_number (floating s) = double (strtod s)

  -- The dispatch of `parseValue` on the byte `c`, with `cs` behind it; the arguments are
  -- `parseObject` and `parseArray` from behind their brackets.
  unfoldable pub dispatch :
      (Bytes → Result (Value D × Bytes))
      → (Bytes → Result (Value D × Bytes))
      → ℕ
      → Bytes
      → Result (Value D × Bytes)
  dispatch object_of array_of c cs =
      if c == b'"'
      then parse_string (c ∷ cs) >>= (λ r. ok (string r.0, r.1))
      else if c == b'{'
      then object_of cs
      else if c == b'['
      then array_of cs
      else if c == b't' || c == b'f'
      then parse_bool (c ∷ cs)
      else if c == b'n'
      then parse_null (c ∷ cs)
      else if c == b'-' || is_digit c
      then (let (n, r) = parse_number (c ∷ cs) in ok (of_number n, r))
      else err (unexpected_character c)

  -- Behind an element: a comma and the next round, or the closing bracket.
  unfoldable pub array_next :
      (Bytes → Result (Value D × Bytes)) → Items D → Bytes → Result (Value D × Bytes)
  array_next again acc [] = err array_separator
  array_next again acc (c ∷ cs) =
      if c == b','
      then again (skip_whitespace cs)
      else if c == b']'
      then ok (array acc, cs)
      else err array_separator

  unfoldable pub object_next :
      (Bytes → Result (Value D × Bytes)) → Fields D → Bytes → Result (Value D × Bytes)
  object_next again acc [] = err object_separator
  object_next again acc (c ∷ cs) =
      if c == b','
      then again (skip_whitespace cs)
      else if c == b'}'
      then ok (object acc, cs)
      else err object_separator

  -- The key and the colon of a field, and what is left.
  unfoldable pub read_colon : Bytes → Bytes → Result (Bytes × Bytes)
  read_colon key [] = err object_colon
  read_colon key (c ∷ cs) = if c == b':' then ok (key, cs) else err object_colon

  unfoldable pub read_key : Bytes → Result (Bytes × Bytes)
  read_key [] = err object_key
  read_key (c ∷ cs) =
      if c == b'"'
      then parse_string (c ∷ cs) >>= (λ r. read_colon r.0 (skip_whitespace r.1))
      else err object_key

  -- Whether the byte closes an empty array or object, and what is left.
  abbrev pub closes : ℕ → Bytes → Option Bytes
  closes b [] = none
  closes b (c ∷ cs) = if c == b then some cs else none

  abbrev pub dispatch_on :
      (Bytes → Result (Value D × Bytes))
      → (Bytes → Result (Value D × Bytes))
      → Bytes
      → Result (Value D × Bytes)
  dispatch_on object_of array_of [] = err unexpected_end
  dispatch_on object_of array_of (c ∷ cs) = dispatch object_of array_of c cs

  unfoldable mutual
    pub parse_value : ℕ → Bytes → Result (Value D × Bytes)
    parse_value zero r = err out_of_fuel
    parse_value (suc fuel) r =
        dispatch_on (parse_object fuel) (parse_array fuel) (skip_whitespace r)

    pub parse_array : ℕ → Bytes → Result (Value D × Bytes)
    parse_array zero r = err out_of_fuel
    parse_array (suc fuel) r = elim (closes b']' (skip_whitespace r)) [
      | some cs ↦ ok (array nil, cs)
      | none ↦ array_loop fuel nil (skip_whitespace r)
    ]

    pub array_loop : ℕ → Items D → Bytes → Result (Value D × Bytes)
    array_loop zero acc r = err out_of_fuel
    array_loop (suc fuel) acc r = parse_value fuel r >>= λ x.
        array_next (array_loop fuel (snoc acc x.0)) (snoc acc x.0) (skip_whitespace x.1)

    pub parse_object : ℕ → Bytes → Result (Value D × Bytes)
    parse_object zero r = err out_of_fuel
    parse_object (suc fuel) r = elim (closes b'}' (skip_whitespace r)) [
      | some cs ↦ ok (object end, cs)
      | none ↦ object_loop fuel end (skip_whitespace r)
    ]

    pub object_loop : ℕ → Fields D → Bytes → Result (Value D × Bytes)
    object_loop zero acc r = err out_of_fuel
    object_loop (suc fuel) acc r = read_key (skip_whitespace r) >>= λ k.
        parse_value fuel k.1 >>= λ x.
        object_next (object_loop fuel (insert k.0 x.0 acc)) (insert k.0 x.0 acc)
          (skip_whitespace x.1)

  -- `parse`: what is left behind the value is not looked at. Three calls for each byte are enough.
  abbrev pub value_of : Result (Value D × Bytes) → Result (Value D)
  value_of (ok (v, r)) = ok v
  value_of (err e) = err e

  abbrev pub parse_from : Bytes → Result (Value D)
  parse_from [] = err empty_input
  parse_from (c ∷ cs) = value_of (parse_value (3 * length (c ∷ cs) + 3) (c ∷ cs))

  unfoldable pub parse : Bytes → Result (Value D)
  unfolding parse_value skip_whitespace dispatch array_next object_next read_key read_colon snoc
      insert parse_string parse_bool parse_null parse_number strtoul16 encode
  parse input = parse_from (skip_whitespace input)
