-- ===== src/Json/RoundTrip/Steps.antt =====
-- A scalar is read back by the dispatch of `parseValue`.
use liva_lang.Base.{
  ℕ, suc, Bool, true, false, [], ◌∷◌, ◌++◌, ◌≡◌, refl, ap, ◌⊎◌, inl, inr, arith, Bytes, codes,
  bytes_eq, ◌==◌,
}
use liva_lang.Base.Decimal.{
  ℤ, pos, negsuc, print_ℤ, digits-cons, is_digit, AreDigits, AreDigits-digits,
}
use liva_lang.Json.Parse.{
  dispatch, dispatch_on, parse_value, parse_array, parse_object, parse_bool, parse_null,
}
use liva_lang.Json.Print.{quoted, serialize}
use liva_lang.Json.RoundTrip.Number.{Stops, IsInt64, parse_number-print_ℤ}
use liva_lang.Json.RoundTrip.Text.{parse_string-quoted}
use liva_lang.Json.Scan.{Result, ok, is_space, skip_whitespace, parse_number, whole}
use liva_lang.Json.Value.{Value, null, boolean, integer, double, string, array, object}
use liva_lang.Json.RoundTrip.Plain.{IsPlain}

-- A text that a value begins: no blank, and no closing bracket or brace.
abbrev pub Begins : Bytes → Type 0
Begins [] = ⊥
Begins (b ∷ bs) =
    (is_space b ≡ false) × (b == b']' ≡ false) × (b == b'}' ≡ false) × (b == b',' ≡ false)

pub digit_Begins : (b : ℕ) (bs : Bytes) → is_digit b ≡ true → Begins (b ∷ bs)
unfolding is_space
digit_Begins b bs h = ground arith

pub skip_whitespace-Begins : (t : Bytes) → Begins t → skip_whitespace t ≡ t
unfolding skip_whitespace
skip_whitespace-Begins [] h = absurd h
skip_whitespace-Begins (b ∷ bs) h = rw (h.0, skip_whitespace)

pub Begins-append : (t r : Bytes) → Begins t → Begins (t ++ r)
Begins-append [] r h = absurd h
Begins-append (b ∷ bs) r h = h

module _ {D : Type 0} (print_double : D → Bytes) (strtod : Bytes → D) where
  abbrev pub text : Value D → Bytes
  text = serialize print_double

  pub text-Begins : (v : Value D) → IsPlain v → Begins (text v)
  unfolding serialize codes is_space
  text-Begins null p = (refl, refl, refl, refl)
  text-Begins (boolean true) p = (refl, refl, refl, refl)
  text-Begins (boolean false) p = (refl, refl, refl, refl)
  text-Begins (integer (pos n)) p =
      let (b, bs, e) = digits-cons n in
      let d : AreDigits (b ∷ bs) = rw e at (AreDigits-digits n) in rw e (digit_Begins b bs d.0)
  text-Begins (integer (negsuc n)) p = (refl, refl, refl, refl)
  text-Begins (double d) p = elim p [ ]
  text-Begins (string s) p = (refl, refl, refl, refl)
  text-Begins (array vs) p = (refl, refl, refl, refl)
  text-Begins (object fs) p = (refl, refl, refl, refl)

  pub value_step :
      (f : ℕ) (t : Bytes)
      → Begins t
      → parse_value strtod (suc f) t
        ≡ dispatch_on strtod (parse_object strtod f) (parse_array strtod f) t
  unfolding parse_value
  value_step f t h =
      ap (dispatch_on strtod (parse_object strtod f) (parse_array strtod f))
        (skip_whitespace-Begins t h)

  -- The dispatch on a byte that begins a number.
  pub dispatch_number :
      (o a : Bytes → Result (Value D × Bytes)) (c : ℕ) (cs : Bytes) {n : ℤ} {r : Bytes}
      → (is_digit c ≡ true) ⊎ (c ≡ b'-')
      → parse_number (c ∷ cs) ≡ (whole n, r)
      → dispatch strtod o a c cs ≡ ok (integer n, r)
  unfolding dispatch
  dispatch_number o a c cs h e = ground arith

  pub integer_step :
      (o a : Bytes → Result (Value D × Bytes)) (n : ℤ) (rest : Bytes)
      → IsInt64 n
      → Stops rest
      → dispatch_on strtod o a (print_ℤ n ++ rest) ≡ ok (integer n, rest)
  unfolding print_ℤ
  integer_step o a (negsuc n) rest h k =
      dispatch_number o a b'-' _ (inr refl) (parse_number-print_ℤ (negsuc n) rest h k)
  integer_step o a (pos n) rest h k =
      let (b, bs, e) = digits-cons n in
      let d : AreDigits (b ∷ bs) = rw e at (AreDigits-digits n) in
      let p = parse_number-print_ℤ (pos n) rest h k in
      let q : parse_number (b ∷ (bs ++ rest)) ≡ (whole (pos n), rest) = rw e at p in
      rw e (dispatch_number o a b (bs ++ rest) (inl d.0) q)

  pub word_step :
      (o a : Bytes → Result (Value D × Bytes)) (rest : Bytes) (b : Bool)
      → (dispatch_on strtod o a (text null ++ rest) ≡ ok (null, rest))
        × (dispatch_on strtod o a (text (boolean b) ++ rest) ≡ ok (boolean b, rest))
  unfolding dispatch parse_null parse_bool serialize codes bytes_eq
  word_step o a rest true = (refl, refl)
  word_step o a rest false = (refl, refl)

  pub string_step :
      (o a : Bytes → Result (Value D × Bytes)) (s rest : Bytes)
      → dispatch_on strtod o a (quoted s ++ rest) ≡ ok (string s, rest)
  unfolding dispatch
  string_step o a s rest = rw (parse_string-quoted s rest)
