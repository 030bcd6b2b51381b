-- ===== src/Lexer/Values/Laws.antt =====
-- The values of literals: strings and decimal integers.
use liva_lang.Base.{
  ℕ, zero, suc, ◌+◌, ◌-◌, ◌*◌, ◌≤◌, ◌^◌, true, false, ◌||◌, [], ◌∷◌, ◌++◌, ◌≡◌, refl, ap, ◌∙◌, inl,
  inr, arith, Bytes, ◌==◌, ltb, if◌then◌else◌, length, length-append, take, take-append, if_false,
  Bool-cases,
}
use liva_lang.Base.Decimal.{pos, digits, AreDigits, AreDigits-digits, value_from, value_from-digits}
use liva_lang.Base.Strtoul.{hex_value}
use liva_lang.Lexer.Kinds.{TokenKind}
use liva_lang.Lexer.State.{SourceLocation}
use liva_lang.Lexer.Values.{
  inner, skip_leading, is_triple, content, value_part, escape_part, unescape, get_string_value,
  digits_from, from_chars, of_digits, get_integer_value,
}

-- How a text is written in a literal: quotes, backslashes and newlines with a backslash.
unfoldable pub literal_byte : ℕ → Bytes
literal_byte b =
    if b == b'"' || b == b'\\'
    then b'\\' ∷ b ∷ []
    else if b == b'\n'
    then b'\\' ∷ b'n' ∷ []
    else b ∷ []

unfoldable pub literal : Bytes → Bytes
unfolding literal_byte
literal [] = []
literal (b ∷ bs) = literal_byte b ++ literal bs

unescape-literal_byte :
    (fuel b : ℕ) (r : Bytes) → unescape (suc fuel) (literal_byte b ++ r) ≡ b ∷ unescape fuel r
unfolding unescape value_part escape_part literal_byte
unescape-literal_byte fuel b [] = ground arith
unescape-literal_byte fuel b (e ∷ r) = ground arith

unescape-literal : (s : Bytes) (fuel : ℕ) → length s ≤ fuel → unescape fuel (literal s) ≡ s
unfolding literal
unescape-literal [] zero h = unfold unescape in refl
unescape-literal [] (suc fuel) h = unfold unescape in refl
unescape-literal (b ∷ s) zero h = absurd (omega arith)
unescape-literal (b ∷ s) (suc fuel) h =
    unescape-literal_byte fuel b (literal s) ∙ ap (◌∷◌ b) (unescape-literal s fuel (omega arith))

length-literal_byte : (b : ℕ) → 1 ≤ length (literal_byte b)
unfolding literal_byte
length-literal_byte b = ground arith

length-literal : (s : Bytes) → length s ≤ length (literal s)
unfolding literal
length-literal [] = omega arith
length-literal (b ∷ s) =
    omega
      (arith, length-append (literal_byte b) (literal s), length-literal_byte b, length-literal s)

literal_byte-first :
    (b : ℕ) → (c : ℕ) × (cs : Bytes) × (literal_byte b ≡ c ∷ cs) × ((c == b'"') ≡ false)
unfolding literal_byte
literal_byte-first b = elim (Bool-cases (b == b'"' || b == b'\\')) [
  | inl escaped ↦ (b'\\', b ∷ [], rw escaped, refl)
  | inr plain ↦ elim (Bool-cases (b == b'\n')) [
    | inl newline ↦ (b'\\', b'n' ∷ [], rw (plain, newline), refl)
    | inr other ↦ (b, [], rw (plain, other), ground (arith, plain))
  ]
]

is_triple-other : (c : ℕ) (r : Bytes) → (c == b'"') ≡ false → is_triple (b'"' ∷ c ∷ r) ≡ false
unfolding is_triple
is_triple-other c r h = ground (arith, h)

-- Behind the opening quote no quote follows, but the closing one.
is_triple-literal : (s : Bytes) → is_triple (b'"' ∷ (literal s ++ b'"' ∷ [])) ≡ false
unfolding literal is_triple
is_triple-literal [] = refl
is_triple-literal (b ∷ s) =
    let (c, cs, e, n) = literal_byte-first b in
    ap (λ (l : Bytes). is_triple (b'"' ∷ ((l ++ literal s) ++ b'"' ∷ []))) e
    ∙ is_triple-other c ((cs ++ literal s) ++ b'"' ∷ []) n

content-quoted :
    (x : Bytes)
    → is_triple (b'"' ∷ (x ++ b'"' ∷ [])) ≡ false
    → content TokenKind.string_literal (b'"' ∷ (x ++ b'"' ∷ [])) ≡ x
unfolding content
content-quoted x h =
    let t = b'"' ∷ (x ++ b'"' ∷ []) in
    let e : length t ≡ length x + 2 = omega (arith, length-append x (b'"' ∷ [])) in
    if_false (is_triple t) (skip_leading (inner 3 t)) (if ltb (length t) 2 then [] else inner 1 t) h
    ∙ if_false (ltb (length t) 2) [] (inner 1 t) (ground (arith, e))
    ∙ ap (λ (n : ℕ). take n (x ++ b'"' ∷ [])) (omega (arith, e))
    ∙ take-append x (b'"' ∷ [])

-- The value of a string literal that spells a text, with a backslash before each quote and backslash
-- and `\n` for a newline, is that text, whatever bytes it has.
pub get_string_value-literal :
    (s : Bytes) (l : SourceLocation)
    → get_string_value (record {
      kind = TokenKind.string_literal;
      location = l;
      text = b'"' ∷ (literal s ++ b'"' ∷ []);
    })
      ≡ s
unfolding get_string_value
get_string_value-literal s l =
    ap (λ (x : Bytes). unescape (length x) x) (content-quoted (literal s) (is_triple-literal s))
    ∙ unescape-literal s (length (literal s)) (length-literal s)

digits_from-digits : (n : ℕ) (ds : Bytes) → AreDigits ds → digits_from 10 n ds ≡ value_from n ds
unfolding digits_from hex_value value_from
digits_from-digits n [] h = refl
digits_from-digits n (d ∷ ds) h = ground (arith, digits_from-digits (n * 10 + (d - b'0')) ds h.1)

from_chars-digits :
    (ds : Bytes) → AreDigits ds → from_chars 10 ds ≡ of_digits false (value_from 0 ds)
unfolding from_chars value_from
from_chars-digits [] h = refl
from_chars-digits (d ∷ ds) h =
    if_false (d == b'-') (of_digits true (digits_from 10 0 ds))
      (of_digits false (digits_from 10 0 (d ∷ ds))) (ground (arith, h.0))
    ∙ ap (of_digits false) (digits_from-digits 0 (d ∷ ds) h)

-- What reading a literal gives whose text is a row of digits: the second byte is no letter.
get_integer_value-digits :
    (ds : Bytes) (l : SourceLocation)
    → AreDigits ds
    → get_integer_value (record { kind = TokenKind.integer_literal; location = l; text = ds })
      ≡ from_chars 10 ds
unfolding get_integer_value
get_integer_value-digits [] l h = refl
get_integer_value-digits (d ∷ []) l h = ground arith
get_integer_value-digits (d ∷ e ∷ ds) l h = ground (arith, h.1.0)

-- Zeros in front
unfoldable pub zeros : ℕ → Bytes
zeros zero = []
zeros (suc k) = b'0' ∷ zeros k

zeros-AreDigits : (k : ℕ) (ds : Bytes) → AreDigits ds → AreDigits (zeros k ++ ds)
unfolding zeros
zeros-AreDigits zero ds h = h
zeros-AreDigits (suc k) ds h = (refl, zeros-AreDigits k ds h)

value_from-zeros : (k : ℕ) (ds : Bytes) → value_from 0 (zeros k ++ ds) ≡ value_from 0 ds
unfolding zeros value_from
value_from-zeros zero ds = refl
value_from-zeros (suc k) ds = value_from-zeros k ds

-- An integer literal of any number of zeros, or none, and then the decimal digits of a number has that
-- number for its value if it fits an `int64_t`, and the value 0 if it does not.
pub get_integer_value-decimal :
    (k n : ℕ) (l : SourceLocation)
    → get_integer_value
        (record { kind = TokenKind.integer_literal; location = l; text = zeros k ++ digits n })
      ≡ (if ltb n (2 ^ 63) then pos n else pos 0)
get_integer_value-decimal k n l =
    let ds = zeros-AreDigits k (digits n) (AreDigits-digits n) in
    get_integer_value-digits (zeros k ++ digits n) l ds
    ∙ from_chars-digits (zeros k ++ digits n) ds
    ∙ ap (of_digits false) (value_from-zeros k (digits n) ∙ value_from-digits n)
