-- ===== src/Json/Tests.antt =====
-- Runs of the JSON reader and printer.
use liva_lang.Base.{
  bytes_eq, ◌||◌, if◌then◌else◌, true, [], ◌++◌, ◌≡◌, ◌≢◌, refl, Bytes, codes, arith,
}
use liva_lang.Base.Decimal.{pos, negsuc, print_ℤ}
use liva_lang.Json.Parse.{parse}
use liva_lang.Json.Print.{quoted, serialize}
use liva_lang.Json.Scan.{object_colon, out_of_fuel, ok, err, parse_string, parse_number, whole}
use liva_lang.Json.Total.Parse.{parse-ne-out_of_fuel}
use liva_lang.Json.Value.{
  set, get, has_key, Fields, Value, null, boolean, integer, string, array, object, nil, cons, end,
  field, bytes_lt,
}
use liva_lang.Json.Members.{AreSorted, set-get-has_key}
use liva_lang.Json.RoundTrip.Number.{parse_number-print_ℤ}
use liva_lang.Json.RoundTrip.Plain.{
  IsPlain, null_plain, boolean_plain, integer_plain, string_plain, array_plain, object_plain,
  nil_plain, cons_plain, end_plain, field_plain,
}
use liva_lang.Json.RoundTrip.Text.{parse_string-quoted}
use liva_lang.Json.RoundTrip.Value.{parse-serialize}

-- Doubles are kept as their texts.
abbrev same : Bytes → Bytes
same s = s

abbrev manifest : Value Bytes
manifest = object (
    field (codes "deps")
      (array (cons (integer (negsuc 6)) (cons (boolean true) (cons (string (codes "a\n")) nil))))
      (field (codes "name") null end))

manifest-IsPlain : IsPlain manifest
unfolding bytes_lt codes
manifest-IsPlain =
    object_plain _ (tt, ((refl, tt), tt))
      (field_plain _ _ _
        (array_plain _ (
          cons_plain _ _ (integer_plain (negsuc 6) (omega arith)) (
            cons_plain _ _ (boolean_plain true)
              (cons_plain _ _ (string_plain (codes "a\n")) nil_plain))))
        (field_plain _ _ _ null_plain end_plain))

parse-serialize_example : parse same (serialize same manifest) ≡ ok manifest
parse-serialize_example = parse-serialize same same manifest manifest-IsPlain

parse_string-quoted_example :
    parse_string (quoted (codes "a\"\\\n") ++ codes ", 1") ≡ ok (codes "a\"\\\n", codes ", 1")
parse_string-quoted_example = parse_string-quoted (codes "a\"\\\n") (codes ", 1")

parse_number-print_ℤ_example :
    parse_number (print_ℤ (negsuc 9223372036854775807) ++ [])
    ≡ (whole (negsuc 9223372036854775807), [])
parse_number-print_ℤ_example = parse_number-print_ℤ (negsuc 9223372036854775807) [] (omega arith) tt

parse-trailing : parse same (codes "1 garbage") ≡ ok (integer (pos 1))
unfolding parse codes
parse-trailing = refl

parse-colon : parse same (codes "{\"a\" 1}") ≡ err object_colon
unfolding parse codes
parse-colon = refl

parse-ne-out_of_fuel_example : parse same (codes "[[[{\"a\":[") ≢ err out_of_fuel
parse-ne-out_of_fuel_example = parse-ne-out_of_fuel same (codes "[[[{\"a\":[")

abbrev two : Fields Bytes
two = field (codes "a") (boolean true) (field (codes "c") null end)

two-AreSorted : AreSorted two
unfolding bytes_lt codes
two-AreSorted = ((refl, tt), (tt, tt))

set-get-has_key_example :
    (gs : Fields Bytes) × (set (codes "b") (integer (pos 1)) (object two) ≡ object gs)
    × AreSorted gs
    × (get (object gs) (codes "c") ≡ (
        if bytes_eq (codes "b") (codes "c") then integer (pos 1) else get (object two) (codes "c")))
    × (has_key (object gs) (codes "c")
        ≡ (bytes_eq (codes "b") (codes "c") || has_key (object two) (codes "c")))
set-get-has_key_example =
    set-get-has_key (codes "b") (codes "c") (integer (pos 1)) two two-AreSorted
