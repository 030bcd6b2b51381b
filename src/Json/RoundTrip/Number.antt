-- ===== src/Json/RoundTrip/Number.antt =====
-- An integer of 64 bits is read back.
use liva_lang.Base.{
  ℕ, suc, ◌<◌, ◌^◌, Bool, false, [], ◌∷◌, ◌++◌, ◌≡◌, refl, arith, Bytes, ◌==◌, ◌||◌,
}
use liva_lang.Base.Decimal.{
  ℤ, pos, negsuc, print_ℤ, digits, is_digit, AreDigits, AreDigits-digits, value_from-digits,
  digits-cons,
}
use liva_lang.Json.Scan.{
  span_digits, span_if, span_fraction, span_exponent, strtoll, whole, parse_number,
}

-- A byte that continues a number.
unfoldable pub is_numeric : ℕ → Bool
is_numeric b = is_digit b || b == b'.' || b == b'e' || b == b'E'

-- What follows a number does not continue it.
abbrev pub Stops : Bytes → Type 0
Stops [] = Unit
Stops (b ∷ bs) = is_numeric b ≡ false

span_digits-AreDigits :
    (ds rest : Bytes) → AreDigits ds → Stops rest → span_digits (ds ++ rest) ≡ (ds, rest)
unfolding span_digits is_numeric
span_digits-AreDigits [] [] h k = refl
span_digits-AreDigits [] (b ∷ bs) h k = ground arith
span_digits-AreDigits (d ∷ ds) rest h k = ground (arith, h.0, span_digits-AreDigits ds rest h.1 k)

span_fraction-Stops : (rest : Bytes) → Stops rest → span_fraction rest ≡ ([], rest)
unfolding span_fraction is_numeric
span_fraction-Stops [] k = refl
span_fraction-Stops (b ∷ bs) k = ground arith

span_exponent-Stops : (rest : Bytes) → Stops rest → span_exponent rest ≡ ([], rest)
unfolding span_exponent is_numeric
span_exponent-Stops [] k = refl
span_exponent-Stops (b ∷ bs) k = ground arith

-- `int64_t`
abbrev pub IsInt64 : ℤ → Type 0
IsInt64 (pos n) = n < 2 ^ 63
IsInt64 (negsuc n) = n < 2 ^ 63

span_if-digits :
    (n : ℕ) (rest : Bytes) → span_if (λ b. b == b'-') (digits n ++ rest) ≡ ([], digits n ++ rest)
unfolding span_if
span_if-digits n rest =
    let (b, bs, e) = digits-cons n in
    let d : AreDigits (b ∷ bs) = rw e at (AreDigits-digits n) in rw e (ground (arith, d.0))

strtoll-pos : (n : ℕ) → n < 2 ^ 63 → strtoll [] (digits n) ≡ pos n
unfolding strtoll
strtoll-pos n h = rw (value_from-digits n) (ground arith)

strtoll-negsuc : (n : ℕ) → n < 2 ^ 63 → strtoll (b'-' ∷ []) (digits (suc n)) ≡ negsuc n
unfolding strtoll
strtoll-negsuc n h = rw (value_from-digits (suc n)) (ground arith)

-- The decimal text of any `int64_t`, the least one included, is read back as an integer, and what
-- follows it is left over if it begins with no byte that could go on in a number.
pub parse_number-print_ℤ :
    (n : ℤ) (rest : Bytes)
    → IsInt64 n
    → Stops rest
    → parse_number (print_ℤ n ++ rest) ≡ (whole n, rest)
unfolding parse_number print_ℤ
parse_number-print_ℤ (pos n) rest h k = rw (
  span_if-digits n rest,
  span_digits-AreDigits (digits n) rest (AreDigits-digits n) k,
  span_fraction-Stops rest k,
  span_exponent-Stops rest k,
  strtoll-pos n h,
)
parse_number-print_ℤ (negsuc n) rest h k = rw (
  span_digits-AreDigits (digits (suc n)) rest (AreDigits-digits (suc n)) k,
  span_fraction-Stops rest k,
  span_exponent-Stops rest k,
  strtoll-negsuc n h,
)
