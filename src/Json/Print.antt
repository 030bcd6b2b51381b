-- ===== src/Json/Print.antt =====
-- `escapeJSONString` and `serialize`. `%.17g` is a parameter.
use liva_lang.Base.{
  ℕ, ◌+◌, ◌-◌, ◌/◌, ◌%◌, Bool, true, false, [], ◌∷◌, ◌++◌, Bytes, codes, ◌==◌, ltb, if◌then◌else◌,
}
use liva_lang.Base.Decimal.{print_ℤ}
use liva_lang.Json.Value.{
  Value, null, boolean, integer, double, string, array, object, Items, nil, cons, Fields, end,
  field,
}

-- A digit of `%x`
abbrev pub hex_digit : ℕ → ℕ
hex_digit n = if ltb n 10 then b'0' + n else b'a' + (n - 10)

abbrev pub escaped : ℕ → Bytes
escaped b = b'\\' ∷ b ∷ []

-- What is appended for one byte.
unfoldable pub escape_byte : ℕ → Bytes
escape_byte c =
    if c == b'"'
    then escaped b'"'
    else if c == b'\\'
    then escaped b'\\'
    else if c == b'\n'
    then escaped b'n'
    else if c == b'\r'
    then escaped b'r'
    else if c == b'\t'
    then escaped b't'
    else if c == 8
    then escaped b'b'
    else if c == 12
    then escaped b'f'
    else if ltb c 0x20
    then b'\\' ∷ b'u' ∷ b'0' ∷ b'0' ∷ hex_digit (c / 16) ∷ hex_digit (c % 16) ∷ []
    else c ∷ []

unfoldable pub escape : Bytes → Bytes
unfolding escape_byte
escape [] = []
escape (c ∷ cs) = escape_byte c ++ escape cs

-- A quoted text, in front of what follows it.
abbrev pub quoted : Bytes → Bytes
quoted s = b'"' ∷ (escape s ++ b'"' ∷ [])

-- `std::string(",")` before all but the first
abbrev pub comma : Bool → Bytes
comma more = if more then b',' ∷ [] else []

module _ {D : Type 0} (print_double : D → Bytes) where
  unfoldable mutual
    unfolding escape print_ℤ codes

    pub serialize : Value D → Bytes
    serialize null = codes "null"
    serialize (boolean b) = if b then codes "true" else codes "false"
    serialize (integer n) = print_ℤ n
    serialize (double d) = print_double d
    serialize (string s) = quoted s
    serialize (array vs) = b'[' ∷ (serialize_items false vs ++ b']' ∷ [])
    serialize (object fs) = b'{' ∷ (serialize_fields false fs ++ b'}' ∷ [])

    pub serialize_items : Bool → Items D → Bytes
    serialize_items more nil = []
    serialize_items more (cons v vs) = comma more ++ (serialize v ++ serialize_items true vs)

    pub serialize_fields : Bool → Fields D → Bytes
    serialize_fields more end = []
    serialize_fields more (field k v fs) =
        comma more ++ (quoted k ++ (b':' ∷ (serialize v ++ serialize_fields true fs)))
