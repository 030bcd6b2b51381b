-- ===== src/Json/Scan.antt =====
-- `skipWhitespace`, `parseString` and `parseNumber` of the JSON parser. The parser's state is the
-- part of the input from `pos_` on. A result is a value and what is left, or the error.
use Prim.Native.Nat.{bit_or}
use liva_lang.Base.{
  ℕ, zero, suc, ◌-◌, ◌/◌, ◌%◌, ◌^◌, Bool, true, false, ◌&&◌, ◌||◌, [], ◌∷◌, ◌++◌, Bytes, ◌==◌, ltb,
  if◌then◌else◌, length,
}
use liva_lang.Base.Strtoul.{strtoul16}
use liva_lang.Base.Decimal.{ℤ, pos, negsuc, value_from, is_digit}

-- The texts of `error_`; `out_of_fuel` is none of them.
pub data Error : Type 0 where
  empty_input unexpected_end expected_quote unterminated_escape : Error
  incomplete_unicode_escape unterminated_string array_separator object_key : Error
  object_colon object_separator invalid_literal out_of_fuel : Error
  unexpected_character unknown_escape : ℕ → Error

pub data Result {ℓ} (A : Type ℓ) : Type ℓ where
  ok : A → Result A
  err : Error → Result A

-- The code looks at `error_` after each part, and stops there.
infixl 5 ◌>>=◌
abbrev pub ◌>>=◌ {ℓ κ} :
    {A : Type ℓ} {B : Type κ} (first : Result A) (next : A → Result B) → Result B
err stop >>= next = err stop
ok part >>= next = next part

unfoldable pub is_space : ℕ → Bool
is_space b = b == b' ' || b == b'\t' || b == b'\n' || b == b'\r'

unfoldable pub skip_whitespace : Bytes → Bytes
unfolding is_space
skip_whitespace [] = []
skip_whitespace (b ∷ bs) = elim (is_space b) [ true ↦ skip_whitespace bs | false ↦ b ∷ bs ]

-- The bytes appended for a code point.
abbrev char_of : ℕ → ℕ
char_of n = n % 256

unfoldable pub encode : ℕ → Bytes
encode cp =
    if ltb cp 0x80
    then char_of cp ∷ []
    else if ltb cp 0x800
    then char_of (bit_or 0xC0 (cp / 64)) ∷ char_of (bit_or 0x80 (cp % 64)) ∷ []
    else char_of (bit_or 0xE0 (cp / 4096))
      ∷ char_of (bit_or 0x80 (cp / 64 % 64))
      ∷ char_of (bit_or 0x80 (cp % 64))
      ∷ []

-- `case 'u'`
unfoldable pub unicode_escape : Bytes → Result (Bytes × Bytes)
unicode_escape (a ∷ b ∷ c ∷ d ∷ r) = ok (encode (strtoul16 (a ∷ b ∷ c ∷ d ∷ [])), r)
unicode_escape _ = err incomplete_unicode_escape

-- Behind a backslash: what is appended, and what is left.
unfoldable pub read_escape : Bytes → Result (Bytes × Bytes)
unfolding unicode_escape
read_escape [] = err unterminated_escape
read_escape (e ∷ r) =
    if e == b'"' || e == b'\\' || e == b'/'
    then ok (e ∷ [], r)
    else if e == b'b'
    then ok (8 ∷ [], r)
    else if e == b'f'
    then ok (12 ∷ [], r)
    else if e == b'n'
    then ok (b'\n' ∷ [], r)
    else if e == b'r'
    then ok (b'\r' ∷ [], r)
    else if e == b't'
    then ok (b'\t' ∷ [], r)
    else if e == b'u'
    then unicode_escape r
    else err (unknown_escape e)

-- One round of the loop: the closing quote, or a piece of the text.
pub data Piece : Type 0 where
  closing : Piece
  piece : Result (Bytes × Bytes) → Piece

unfoldable pub read_piece : ℕ → Bytes → Piece
unfolding read_escape
read_piece c r =
    if c == b'"'
    then closing
    else if c == b'\\'
    then piece (read_escape r)
    else piece (ok (c ∷ [], r))

-- `while (pos_ < input_.size())`, behind the opening quote
unfoldable pub string_loop : ℕ → Bytes → Bytes → Result (Bytes × Bytes)
unfolding read_piece
string_loop zero acc r = err out_of_fuel
string_loop (suc fuel) acc [] = err unterminated_string
string_loop (suc fuel) acc (c ∷ cs) = elim (read_piece c cs) [
  | closing ↦ ok (acc, cs)
  | piece (ok (p, r)) ↦ string_loop fuel (acc ++ p) r
  | piece (err e) ↦ err e
]

unfoldable pub parse_string : Bytes → Result (Bytes × Bytes)
unfolding string_loop
parse_string [] = err expected_quote
parse_string (c ∷ cs) =
    if c == b'"' then string_loop (suc (length cs)) [] cs else err expected_quote

-- The digits at the front, and what is left.
unfoldable pub span_digits : Bytes → Bytes × Bytes
span_digits [] = ([], [])
span_digits (b ∷ bs) = elim (is_digit b) [
  | true ↦ let (ds, r) = span_digits bs in (b ∷ ds, r)
  | false ↦ ([], b ∷ bs)
]

-- A byte that `test` takes, and what is left.
unfoldable pub span_if : (ℕ → Bool) → Bytes → Bytes × Bytes
span_if test [] = ([], [])
span_if test (b ∷ bs) = if test b then (b ∷ [], bs) else ([], b ∷ bs)

-- `.` and its digits
unfoldable pub span_fraction : Bytes → Bytes × Bytes
unfolding span_digits
span_fraction [] = ([], [])
span_fraction (b ∷ bs) =
    if b == b'.' then (let (ds, r) = span_digits bs in (b ∷ ds, r)) else ([], b ∷ bs)

-- `e`, a sign, and digits
unfoldable pub span_exponent : Bytes → Bytes × Bytes
unfolding span_digits span_if
span_exponent [] = ([], [])
span_exponent (b ∷ bs) =
    if b == b'e' || b == b'E'
    then (let (s, r) = span_if (λ c. c == b'+' || c == b'-') bs in
        let (ds, t) = span_digits r in (b ∷ (s ++ ds), t))
    else ([], b ∷ bs)

abbrev is_empty : Bytes → Bool
is_empty [] = true
is_empty (b ∷ bs) = false

-- `strtoll` on a sign and digits: the value is kept within 64 bits.
abbrev pub max64 : ℕ
max64 = 2 ^ 63 - 1

unfoldable pub strtoll : Bytes → Bytes → ℤ
unfolding value_from
strtoll [] ds = let n = value_from 0 ds in pos (if ltb max64 n then max64 else n)
strtoll (s ∷ _) ds =
    let n = value_from 0 ds in
    if n == 0 then pos 0 else (if ltb max64 (n - 1) then negsuc max64 else negsuc (n - 1))

-- The number at the front: an integer, or the text of a double.
pub data Number : Type 0 where
  whole : ℤ → Number
  floating : Bytes → Number

unfoldable pub parse_number : Bytes → Number × Bytes
unfolding span_if span_digits span_fraction span_exponent strtoll
parse_number r =
    let (sign, r1) = span_if (λ b. b == b'-') r in
    let (ds, r2) = span_digits r1 in
    let (fraction, r3) = span_fraction r2 in
    let (exponent, r4) = span_exponent r3 in
    if is_empty fraction && is_empty exponent
    then (whole (strtoll sign ds), r4)
    else (floating (sign ++ (ds ++ (fraction ++ exponent))), r4)
