-- ===== src/Base/Strtoul.antt =====
-- `std::strtoul` in base 16 with an `unsigned long` of 64 bits, as the C standard has it.
use Prim.Native.Nat.{ℕ, ◌+◌, ◌-◌, ◌*◌, ◌%◌, ◌^◌}
use mathlib.Core.Bool.{Bool, true, false, ◌&&◌, ◌||◌}
use mathlib.Core.List.{[], ◌∷◌}
use mathlib.Core.Option.{Option, none, some}
use liva_lang.Base.Tests.{ltb, leb, ◌==◌, if◌then◌else◌}
use liva_lang.Base.Lists.{Bytes}
use liva_lang.Base.Decimal.{is_digit}

-- The value of a hexadecimal digit.
unfoldable pub hex_value : ℕ → Option ℕ
hex_value b =
    if is_digit b
    then some (b - b'0')
    else if leb b'a' b && leb b b'f'
    then some (b - b'a' + 10)
    else if leb b'A' b && leb b b'F'
    then some (b - b'A' + 10)
    else none

unfoldable pub hex_from : ℕ → Bytes → ℕ
unfolding hex_value
hex_from n [] = n
hex_from n (b ∷ bs) = elim (hex_value b) [ none ↦ n | some d ↦ hex_from (n * 16 + d) bs ]

unfoldable pub hex_prefixed : Bytes → ℕ
unfolding hex_from hex_value
hex_prefixed (a ∷ b ∷ c ∷ bs) =
    if a == b'0' && (b == b'x' || b == b'X')
    then elim (hex_value c) [ none ↦ 0 | some d ↦ hex_from d bs ]
    else hex_from 0 (a ∷ b ∷ c ∷ bs)
hex_prefixed bs = hex_from 0 bs

abbrev is_c_space : ℕ → Bool
is_c_space b = b == b' ' || (leb 9 b && leb b 13)

-- What does not fit is the greatest value, whatever its sign.
abbrev of_magnitude : Bool → ℕ → ℕ
of_magnitude minus n =
    if ltb (2 ^ 64 - 1) n then 2 ^ 64 - 1 else (if minus then (2 ^ 64 - n) % 2 ^ 64 else n)

-- Blanks, a sign, `0x`, and as many digits as there are.
unfoldable pub strtoul16 : Bytes → ℕ
unfolding hex_prefixed
strtoul16 [] = 0
strtoul16 (b ∷ bs) =
    let rest = strtoul16 bs in
    if is_c_space b
    then rest
    else if b == b'-'
    then of_magnitude true (hex_prefixed bs)
    else if b == b'+'
    then of_magnitude false (hex_prefixed bs)
    else of_magnitude false (hex_prefixed (b ∷ bs))
