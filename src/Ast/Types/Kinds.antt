-- ===== src/Ast/Types/Kinds.antt =====
-- How the tests on kinds of src/AST/Type.cpp fit together.
use liva_lang.Base.{false, ◌&&◌, ◌||◌, ◌≡◌, refl, leb}
use liva_lang.Ast.Types.Repr.{
  Kind, is_integer, is_signed_integer, is_unsigned_integer, is_float, is_numeric, is_primitive,
  get_bit_width,
}

-- A kind is an integer exactly if it is a signed or an unsigned one, and it is not both; no integer
-- is a float; the numeric kinds are exactly those of at least 8 bits, and all of them are primitive.
pub numeric_kinds :
    (k : Kind)
    → (is_integer k ≡ (is_signed_integer k || is_unsigned_integer k))
      × ((is_signed_integer k && is_unsigned_integer k) ≡ false)
      × ((is_integer k && is_float k) ≡ false)
      × (is_numeric k ≡ leb 8 (get_bit_width k))
      × ((is_numeric k && is_primitive k) ≡ is_numeric k)
unfolding is_integer is_signed_integer is_unsigned_integer is_float is_numeric is_primitive
    get_bit_width
numeric_kinds Kind.void = (refl, refl, refl, refl, refl)
numeric_kinds _ = (refl, refl, refl, refl, refl)
