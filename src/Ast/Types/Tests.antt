-- ===== src/Ast/Types/Tests.antt =====
-- Types on which the clone and the printed name can be followed by hand.
use liva_lang.Base.{[], true, false, codes, ◌≡◌, refl, ◌↔◌, ◌&&◌, ◌||◌, leb}
use liva_lang.Base.Decimal.{pos, print_ℤ}
use liva_lang.Ast.Types.Repr.{
  Kind, TypeRepr, nil, cons, to_string, is_integer, is_signed_integer, is_unsigned_integer,
  is_float, is_numeric, is_primitive, get_bit_width,
}
use liva_lang.Ast.Types.Clone.{clone, is_const_free, clone-eq-self_iff}
use liva_lang.Ast.Types.Kinds.{numeric_kinds}

-- FixedArray<i32, 10>
abbrev fixed_array : TypeRepr
fixed_array =
    TypeRepr.generic (codes "FixedArray")
      (cons (TypeRepr.plain Kind.i32) (cons (TypeRepr.const_value (pos 10) []) nil))

fixed_array-name : to_string fixed_array ≡ codes "FixedArray<i32, 10>"
unfolding to_string codes print_ℤ
fixed_array-name = refl

fixed_array-clone_name : to_string (clone fixed_array) ≡ codes "FixedArray<i32, const>"
unfolding to_string clone codes
fixed_array-clone_name = refl

clone-eq-self_iff_example : (clone fixed_array ≡ fixed_array) ↔ (is_const_free fixed_array ≡ true)
clone-eq-self_iff_example = clone-eq-self_iff fixed_array

numeric_kinds_example :
    (is_integer Kind.u16 ≡ (is_signed_integer Kind.u16 || is_unsigned_integer Kind.u16))
    × ((is_signed_integer Kind.u16 && is_unsigned_integer Kind.u16) ≡ false)
    × ((is_integer Kind.u16 && is_float Kind.u16) ≡ false)
    × (is_numeric Kind.u16 ≡ leb 8 (get_bit_width Kind.u16))
    × ((is_numeric Kind.u16 && is_primitive Kind.u16) ≡ is_numeric Kind.u16)
numeric_kinds_example = numeric_kinds Kind.u16
