-- ===== src/Ast/Types/Repr.antt =====
-- The data of include/liva/AST/Type.h, `toString`, the tests on kinds and `getBitWidth`.
use liva_lang.Base.{
  ℕ, Bool, true, false, ◌&&◌, ◌||◌, [], ◌∷◌, ◌++◌, Bytes, codes, leb, if◌then◌else◌,
}
use liva_lang.Base.Decimal.{ℤ, negsuc, print_ℤ}

pub data Kind : Type 0 where
  void bool i8 i16 i32 i64 u8 u16 u32 u64 f32 f64 string : Kind
  named array reference optional result function tuple generic inferred : Kind
  dyn_protocol associated_type const_value : Kind

-- `TypeRepr` and its subclasses. `plain` is the base class with a kind of its own.
mutual
  pub data TypeRepr : Type 0 where
    plain : Kind → TypeRepr
    named : Bytes → TypeRepr
    reference : TypeRepr → Bool → Bytes → TypeRepr
    array : TypeRepr → ℤ → Bytes → TypeRepr
    function : Types → TypeRepr → TypeRepr
    tuple : Types → TypeRepr
    generic : Bytes → Types → TypeRepr
    const_value : ℤ → Bytes → TypeRepr
    optional : TypeRepr → TypeRepr
    result : TypeRepr → TypeRepr → TypeRepr
    dyn_protocol : Bytes → TypeRepr
    associated_type : Bytes → Bytes → TypeRepr

  pub data Types : Type 0 where
    nil : Types
    cons : TypeRepr → Types → Types

-- `getKind`
unfoldable pub kind_of : TypeRepr → Kind
kind_of (TypeRepr.plain k) = k
kind_of (TypeRepr.named n) = Kind.named
kind_of (TypeRepr.reference t m l) = Kind.reference
kind_of (TypeRepr.array t n p) = Kind.array
kind_of (TypeRepr.function ps r) = Kind.function
kind_of (TypeRepr.tuple ts) = Kind.tuple
kind_of (TypeRepr.generic b ts) = Kind.generic
kind_of (TypeRepr.const_value v p) = Kind.const_value
kind_of (TypeRepr.optional t) = Kind.optional
kind_of (TypeRepr.result t e) = Kind.result
kind_of (TypeRepr.dyn_protocol n) = Kind.dyn_protocol
kind_of (TypeRepr.associated_type b n) = Kind.associated_type

-- The value of the enumerator, by which kinds are compared.
unfoldable pub rank : Kind → ℕ
rank Kind.void = 0
rank Kind.bool = 1
rank Kind.i8 = 2
rank Kind.i16 = 3
rank Kind.i32 = 4
rank Kind.i64 = 5
rank Kind.u8 = 6
rank Kind.u16 = 7
rank Kind.u32 = 8
rank Kind.u64 = 9
rank Kind.f32 = 10
rank Kind.f64 = 11
rank Kind.string = 12
rank Kind.named = 13
rank Kind.array = 14
rank Kind.reference = 15
rank Kind.optional = 16
rank Kind.result = 17
rank Kind.function = 18
rank Kind.tuple = 19
rank Kind.generic = 20
rank Kind.inferred = 21
rank Kind.dyn_protocol = 22
rank Kind.associated_type = 23
rank Kind.const_value = 24

abbrev pub between : Kind → Kind → Kind → Bool
between lo hi k = leb (rank lo) (rank k) && leb (rank k) (rank hi)

-- `isInteger`, `isSignedInteger`, `isUnsignedInteger`, `isFloat`, `isNumeric`, `isPrimitive`
unfoldable pub is_integer : Kind → Bool
unfolding rank
is_integer = between Kind.i8 Kind.u64

unfoldable pub is_signed_integer : Kind → Bool
unfolding rank
is_signed_integer = between Kind.i8 Kind.i64

unfoldable pub is_unsigned_integer : Kind → Bool
unfolding rank
is_unsigned_integer = between Kind.u8 Kind.u64

unfoldable pub is_float : Kind → Bool
is_float Kind.f32 = true
is_float Kind.f64 = true
is_float _ = false

unfoldable pub is_numeric : Kind → Bool
unfolding is_integer is_float
is_numeric k = is_integer k || is_float k

unfoldable pub is_primitive : Kind → Bool
unfolding rank
is_primitive = between Kind.void Kind.string

unfoldable pub get_bit_width : Kind → ℕ
get_bit_width Kind.i8 = 8
get_bit_width Kind.u8 = 8
get_bit_width Kind.i16 = 16
get_bit_width Kind.u16 = 16
get_bit_width Kind.i32 = 32
get_bit_width Kind.u32 = 32
get_bit_width Kind.f32 = 32
get_bit_width Kind.i64 = 64
get_bit_width Kind.u64 = 64
get_bit_width Kind.f64 = 64
get_bit_width Kind.bool = 1
get_bit_width _ = 0

-- `TypeRepr::toString`
unfoldable pub kind_name : Kind → Bytes
unfolding codes
kind_name Kind.void = codes "void"
kind_name Kind.bool = codes "bool"
kind_name Kind.i8 = codes "i8"
kind_name Kind.i16 = codes "i16"
kind_name Kind.i32 = codes "i32"
kind_name Kind.i64 = codes "i64"
kind_name Kind.u8 = codes "u8"
kind_name Kind.u16 = codes "u16"
kind_name Kind.u32 = codes "u32"
kind_name Kind.u64 = codes "u64"
kind_name Kind.f32 = codes "f32"
kind_name Kind.f64 = codes "f64"
kind_name Kind.string = codes "string"
kind_name Kind.named = codes "<named>"
kind_name Kind.array = codes "<array>"
kind_name Kind.reference = codes "<ref>"
kind_name Kind.optional = codes "<optional>"
kind_name Kind.result = codes "<result>"
kind_name Kind.function = codes "<function>"
kind_name Kind.tuple = codes "<tuple>"
kind_name Kind.generic = codes "<generic>"
kind_name Kind.inferred = codes "<inferred>"
kind_name Kind.dyn_protocol = codes "<dyn>"
kind_name Kind.associated_type = codes "<assoc>"
kind_name Kind.const_value = codes "const"

-- `isDynamic`
unfoldable pub is_dynamic : ℤ → Bytes → Bool
is_dynamic (negsuc n) [] = true
is_dynamic _ _ = false

-- `toString`; `list_names` is the loop over parameters, elements or arguments, the flag of which
-- says whether `i > 0`.
unfoldable mutual
  unfolding codes print_ℤ kind_name is_dynamic

  pub to_string : TypeRepr → Bytes
  to_string (TypeRepr.plain k) = kind_name k
  to_string (TypeRepr.named n) = n
  to_string (TypeRepr.reference t m l) =
      if m then codes "ref mut " ++ to_string t else codes "ref " ++ to_string t
  to_string (TypeRepr.array t n p) =
      if is_dynamic n p
      then codes "[" ++ (to_string t ++ codes "]")
      else codes "[" ++ (to_string t ++ (codes "; " ++ (print_ℤ n ++ codes "]")))
  to_string (TypeRepr.function ps r) =
      codes "(" ++ (list_names false ps ++ (codes ") -> " ++ to_string r))
  to_string (TypeRepr.tuple ts) = codes "(" ++ (list_names false ts ++ codes ")")
  to_string (TypeRepr.generic b ts) = b ++ (codes "<" ++ (list_names false ts ++ codes ">"))
  to_string (TypeRepr.const_value v []) = print_ℤ v
  to_string (TypeRepr.const_value v (b ∷ p)) = b ∷ p
  to_string (TypeRepr.optional t) = to_string t ++ codes "?"
  to_string (TypeRepr.result t e) =
      codes "Result<" ++ (to_string t ++ (codes ", " ++ (to_string e ++ codes ">")))
  to_string (TypeRepr.dyn_protocol n) = codes "dyn " ++ n
  to_string (TypeRepr.associated_type b n) = b ++ (codes "." ++ n)

  pub list_names : Bool → Types → Bytes
  list_names more nil = []
  list_names more (cons t ts) =
      (if more then codes ", " else []) ++ (to_string t ++ list_names true ts)
