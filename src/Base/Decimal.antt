-- ===== src/Base/Decimal.antt =====
-- Signed integers and their decimal notation: `std::to_string` and `%lld`.
use Prim.Native.Nat.{ℕ, zero, suc, ◌+◌, ◌-◌, ◌*◌, ◌/◌, ◌%◌, ◌<◌}
use mathlib.Core.Bool.{Bool, true, ◌&&◌}
use mathlib.Core.List.{[], ◌∷◌, ◌++◌}
use mathlib.Core.Logic.{inl, inr}
use mathlib.Core.Path.{◌≡◌, refl, ◌∙◌}
use native.Mathlib.Omega.{arith}
use liva_lang.Base.Tests.{ltb, leb, if◌then◌else◌, Bool-cases}
use liva_lang.Base.Lists.{Bytes}

-- `negsuc n` is -(n + 1).
pub data ℤ : Type 0 where
  pos : ℕ → ℤ
  negsuc : ℕ → ℤ

-- The digits of a number, with its value and one more for fuel.
unfoldable pub digits_with : ℕ → ℕ → Bytes
digits_with zero n = []
digits_with (suc fuel) n =
    let rest = digits_with fuel (n / 10) in
    if ltb n 10 then (b'0' + n) ∷ [] else rest ++ (b'0' + n % 10) ∷ []

unfoldable pub digits : ℕ → Bytes
unfolding digits_with
digits n = digits_with (suc n) n

unfoldable pub print_ℤ : ℤ → Bytes
unfolding digits
print_ℤ (pos n) = digits n
print_ℤ (negsuc n) = b'-' ∷ digits (suc n)

-- The value of a row of digits behind a value.
unfoldable pub value_from : ℕ → Bytes → ℕ
value_from n [] = n
value_from n (b ∷ bs) = value_from (n * 10 + (b - b'0')) bs

abbrev pub is_digit : ℕ → Bool
is_digit b = leb b'0' b && leb b b'9'

abbrev pub AreDigits : Bytes → Type 0
AreDigits [] = Unit
AreDigits (b ∷ bs) = (is_digit b ≡ true) × AreDigits bs

value_from-append : (n : ℕ) (a b : Bytes) → value_from n (a ++ b) ≡ value_from (value_from n a) b
unfolding value_from
value_from-append n [] b = refl
value_from-append n (x ∷ a) b = value_from-append (n * 10 + (x - b'0')) a b

AreDigits-append : (a b : Bytes) → AreDigits a → AreDigits b → AreDigits (a ++ b)
AreDigits-append [] b h k = k
AreDigits-append (x ∷ a) b h k = (h.0, AreDigits-append a b h.1 k)

-- With fuel above the number the digits are digits, and stand for the number.
digits_with-value :
    (fuel n : ℕ)
    → n < fuel
    → (value_from 0 (digits_with fuel n) ≡ n) × AreDigits (digits_with fuel n)
unfolding digits_with value_from
digits_with-value zero n h = absurd (omega arith)
digits_with-value (suc fuel) n h = elim (Bool-cases (ltb n 10)) [
  | inl small ↦ rw small (omega arith, (ground arith, tt))
  | inr large ↦
      let (v, d) = digits_with-value fuel (n / 10) (ground arith) in
      rw large (
        value_from-append 0 (digits_with fuel (n / 10)) _ ∙ rw v (omega arith),
        AreDigits-append _ _ d (ground arith, tt),
      )
]

pub value_from-digits : (n : ℕ) → value_from 0 (digits n) ≡ n
unfolding digits
value_from-digits n = (digits_with-value (suc n) n (omega arith)).0

pub AreDigits-digits : (n : ℕ) → AreDigits (digits n)
unfolding digits
AreDigits-digits n = (digits_with-value (suc n) n (omega arith)).1

digits_with-cons : (fuel n : ℕ) → n < fuel → (b : ℕ) × (bs : Bytes) × (digits_with fuel n ≡ b ∷ bs)
unfolding digits_with
digits_with-cons zero n h = absurd (omega arith)
digits_with-cons (suc fuel) n h = elim (Bool-cases (ltb n 10)) [
  | inl small ↦ (b'0' + n, [], rw small)
  | inr large ↦
      let (b, bs, e) = digits_with-cons fuel (n / 10) (ground arith) in
      (b, bs ++ (b'0' + n % 10) ∷ [], rw (large, e))
]

-- There is at least one digit.
pub digits-cons : (n : ℕ) → (b : ℕ) × (bs : Bytes) × (digits n ≡ b ∷ bs)
unfolding digits
digits-cons n = digits_with-cons (suc n) n (omega arith)
