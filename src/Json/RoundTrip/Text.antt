-- ===== src/Json/RoundTrip/Text.antt =====
-- A quoted text is read back, whatever bytes it holds.
use mathlib.Core.List.{append-nil, append_assoc}
use liva_lang.Base.{
  ℕ, zero, suc, ◌/◌, ◌%◌, ◌≤◌, ◌<◌, Bool, true, false, [], ◌∷◌, ◌++◌, ◌≡◌, refl, ◌∙◌, ap, arith,
  Bytes, if◌then◌else◌, length, length-append, bytes_eq, bytes_eq_iff,
}
use liva_lang.Json.Print.{hex_digit, escape_byte, escape, quoted}
use liva_lang.Base.Strtoul.{strtoul16}
use liva_lang.Json.Scan.{
  ok, encode, unicode_escape, read_escape, read_piece, string_loop, parse_string,
}

abbrev hex_row : ℕ → Bytes
hex_row c = b'0' ∷ b'0' ∷ hex_digit (c / 16) ∷ hex_digit (c % 16) ∷ []

-- The control bytes are few: each of them is tried.
try_below : (ℕ → Bool) → ℕ → Bool
try_below test zero = true
try_below test (suc k) = if test k then try_below test k else false

test_of_try : (test : ℕ → Bool) (k c : ℕ) → c < k → try_below test k ≡ true → test c ≡ true
unfolding try_below
test_of_try test zero c below tried = absurd (omega arith)
test_of_try test (suc k) c below tried = ground (arith, test_of_try test k c)

rows_tried : try_below (λ c. bytes_eq (encode (strtoul16 (hex_row c))) (c ∷ [])) 32 ≡ true
unfolding try_below encode strtoul16 bytes_eq
rows_tried = refl

encode-hex_row : (c : ℕ) → c < 32 → encode (strtoul16 (hex_row c)) ≡ c ∷ []
encode-hex_row c h = (bytes_eq_iff _ _).0 (test_of_try _ 32 c h rows_tried)

-- One escaped byte is one round of the loop.
string_loop-escape_byte :
    (fuel : ℕ) (acc rest : Bytes) (c : ℕ)
    → string_loop (suc fuel) acc (escape_byte c ++ rest) ≡ string_loop fuel (acc ++ c ∷ []) rest
unfolding string_loop escape_byte read_piece read_escape unicode_escape
string_loop-escape_byte fuel acc rest c = ground (arith, encode-hex_row c)

-- The rounds that an escaped text takes.
string_loop-escape :
    (s : Bytes) (fuel : ℕ) (acc rest : Bytes)
    → length s < fuel
    → string_loop fuel acc (escape s ++ b'"' ∷ rest) ≡ ok (acc ++ s, rest)
unfolding escape
string_loop-escape s zero acc rest h = absurd (omega arith)
string_loop-escape [] (suc fuel) acc rest h = rw append-nil (unfold string_loop in refl)
string_loop-escape (c ∷ s) (suc fuel) acc rest h =
    ap (string_loop (suc fuel) acc) (append_assoc (escape_byte c) (escape s) (b'"' ∷ rest))
    ∙ string_loop-escape_byte fuel acc _ c
    ∙ string_loop-escape s fuel (acc ++ c ∷ []) rest (omega arith)
    ∙ rw append_assoc

length-escape_byte-le : (c : ℕ) → 1 ≤ length (escape_byte c)
unfolding escape_byte
length-escape_byte-le c = ground arith

length-escape-le : (s : Bytes) → length s ≤ length (escape s)
unfolding escape
length-escape-le [] = omega arith
length-escape-le (c ∷ s) =
    omega
      (arith, length-append (escape_byte c) (escape s), length-escape_byte-le c, length-escape-le s)

-- A quoted text is read back with what follows it left over, whatever bytes it holds.
pub parse_string-quoted : (s rest : Bytes) → parse_string (quoted s ++ rest) ≡ ok (s, rest)
unfolding parse_string
parse_string-quoted s rest =
    ap (λ (r : Bytes). string_loop (suc (length r)) [] r) (append_assoc (escape s) (b'"' ∷ []) rest)
    ∙ string_loop-escape s (suc (length (escape s ++ b'"' ∷ rest))) [] rest
        (omega (arith, length-append (escape s) (b'"' ∷ rest), length-escape-le s))
