-- ===== src/Lexer/Values.antt =====
-- `Token::getStringValue` and `Token::getIntegerValue` of src/Lexer/Token.cpp.
use Prim.Native.Nat.{bit_or}
use liva_lang.Base.{
  ℕ, zero, suc, ◌+◌, ◌-◌, ◌*◌, ◌/◌, ◌%◌, ◌^◌, Bool, true, false, ◌&&◌, ◌||◌, [], ◌∷◌, ◌++◌, Option,
  none, some, Bytes, ◌==◌, ltb, leb, if◌then◌else◌, length, get_elem?, take, drop,
}
use liva_lang.Base.Decimal.{ℤ, pos, negsuc}
use liva_lang.Base.Strtoul.{hex_value, strtoul16}
use liva_lang.Lexer.Kinds.{TokenKind}
use liva_lang.Lexer.State.{Token}
pub mod Laws

-- What stands between the first `n` bytes and the last `n`.
abbrev pub inner : ℕ → Bytes → Bytes
inner n t = take (length t - 2 * n) (drop n t)

-- `text_[k] == b`
abbrev pub holds_at : ℕ → ℕ → Bytes → Bool
holds_at k b t = elim (get_elem? t k) [ none ↦ false | some c ↦ c == b ]

-- Skip optional leading newline
unfoldable pub skip_leading : Bytes → Bytes
skip_leading t =
    if holds_at 0 b'\n' t
    then drop 1 t
    else if holds_at 0 b'\r' t && holds_at 1 b'\n' t
    then drop 2 t
    else t

unfoldable pub is_triple : Bytes → Bool
is_triple t = leb 6 (length t) && (holds_at 0 b'"' t && (holds_at 1 b'"' t && holds_at 2 b'"' t))

-- The text without its quotes, by the kind of the token: from `start` to `end`.
unfoldable pub content : TokenKind → Bytes → Bytes
unfolding is_triple skip_leading
content TokenKind.string_literal t =
    if is_triple t then skip_leading (inner 3 t) else if ltb (length t) 2 then [] else inner 1 t
content TokenKind.string_interp_begin t = drop 1 t
content TokenKind.string_interp_mid t = t
content TokenKind.string_interp_end t = take (length t - 1) t
content _ t = if ltb (length t) 2 then [] else inner 1 t

-- Encode codepoint as UTF-8; nothing above 0x10FFFF.
unfoldable pub utf8 : ℕ → Bytes
utf8 cp =
    if leb cp 0x7F
    then cp ∷ []
    else if leb cp 0x7FF
    then bit_or 0xC0 (cp / 64) ∷ bit_or 0x80 (cp % 64) ∷ []
    else if leb cp 0xFFFF
    then bit_or 0xE0 (cp / 4096) ∷ bit_or 0x80 (cp / 64 % 64) ∷ bit_or 0x80 (cp % 64) ∷ []
    else if leb cp 0x10FFFF
    then bit_or 0xF0 (cp / 262144)
      ∷ bit_or 0x80 (cp / 4096 % 64)
      ∷ bit_or 0x80 (cp / 64 % 64)
      ∷ bit_or 0x80 (cp % 64)
      ∷ []
    else []

-- The bytes before the closing brace, and those behind it.
unfoldable pub split_brace : Bytes → Bytes × Bytes
split_brace [] = ([], [])
split_brace (b ∷ bs) = let (hex, r) = split_brace bs in if b == b'}' then ([], bs) else (b ∷ hex, r)

-- Behind `\u`: what is appended, and what is left.
unfoldable pub unicode_part : Bytes → Bytes × Bytes
unfolding split_brace utf8 strtoul16
unicode_part [] = (b'u' ∷ [], [])
unicode_part (b ∷ bs) =
    let (hex, r) = split_brace bs in
    if b == b'{' then (utf8 (strtoul16 hex), r) else (b'u' ∷ [], b ∷ bs)

-- The escaped byte `e`, with `r` behind it.
unfoldable pub escape_part : ℕ → Bytes → Bytes × Bytes
unfolding unicode_part
escape_part e r =
    if e == b'n'
    then (b'\n' ∷ [], r)
    else if e == b't'
    then (b'\t' ∷ [], r)
    else if e == b'r'
    then (b'\r' ∷ [], r)
    else if e == b'0'
    then (0 ∷ [], r)
    else if e == b'u'
    then unicode_part r
    else (e ∷ [], r)

-- One round of the loop over the text: a backslash at the very end stands for itself.
unfoldable pub value_part : ℕ → Bytes → Bytes × Bytes
unfolding escape_part
value_part b [] = (b ∷ [], [])
value_part b (e ∷ r) = if b == b'\\' then escape_part e r else (b ∷ [], e ∷ r)

-- The loop, with fuel for its rounds.
unfoldable pub unescape : ℕ → Bytes → Bytes
unfolding value_part
unescape zero t = []
unescape (suc fuel) [] = []
unescape (suc fuel) (b ∷ bs) = let (out, r) = value_part b bs in out ++ unescape fuel r

-- A round takes a byte, so as many rounds as bytes are enough.
unfoldable pub get_string_value : Token → Bytes
unfolding content unescape
get_string_value t = unescape (length (content t.kind t.text)) (content t.kind t.text)

-- `std::from_chars` for an `int64_t`: the digits of the base at the front. A number that does not
-- fit, or none, leaves the result as it is, 0.
unfoldable pub digits_from : ℕ → ℕ → Bytes → ℕ
unfolding hex_value
digits_from base n [] = n
digits_from base n (b ∷ bs) = elim (hex_value b) [
  | none ↦ n
  | some d ↦ if ltb d base then digits_from base (n * base + d) bs else n
]

abbrev pub of_digits : Bool → ℕ → ℤ
of_digits false n = if ltb n (2 ^ 63) then pos n else pos 0
of_digits true n = if n == 0 then pos 0 else if leb n (2 ^ 63) then negsuc (n - 1) else pos 0

unfoldable pub from_chars : ℕ → Bytes → ℤ
unfolding digits_from
from_chars base [] = pos 0
from_chars base (b ∷ bs) =
    if b == b'-'
    then of_digits true (digits_from base 0 bs)
    else of_digits false (digits_from base 0 (b ∷ bs))

unfoldable pub get_integer_value : Token → ℤ
unfolding from_chars
get_integer_value t =
    let prefix = ltb 2 (length t.text) && holds_at 0 b'0' t.text in
    if prefix && (holds_at 1 b'x' t.text || holds_at 1 b'X' t.text)
    then from_chars 16 (drop 2 t.text)
    else if prefix && (holds_at 1 b'b' t.text || holds_at 1 b'B' t.text)
    then from_chars 2 (drop 2 t.text)
    else if prefix && (holds_at 1 b'o' t.text || holds_at 1 b'O' t.text)
    then from_chars 8 (drop 2 t.text)
    else from_chars 10 t.text
