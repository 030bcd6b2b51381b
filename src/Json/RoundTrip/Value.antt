-- ===== src/Json/RoundTrip/Value.antt =====
-- Whole values are read back.
use mathlib.Core.List.{append-nil, append_assoc}
use liva_lang.Base.{
  zero, suc, ◌+◌, ◌*◌, ◌≤◌, Bool, true, false, [], ◌∷◌, ◌++◌, ◌≡◌, refl, sym, ◌∙◌, ap, arith, Bytes,
  if◌then◌else◌, length, length-append,
}
use liva_lang.Json.Parse.{
  dispatch, dispatch_on, parse_value, parse_array, parse_object, parse, parse_from, value_of,
}
use liva_lang.Json.Print.{quoted, comma, serialize, serialize_items, serialize_fields}
use liva_lang.Json.RoundTrip.Number.{Stops}
use liva_lang.Json.Scan.{Result, ok, is_space}
use liva_lang.Json.Value.{
  Value, null, boolean, integer, double, string, array, object, Items, nil, cons, Fields, end,
  field,
}
use liva_lang.Json.RoundTrip.Plain.{
  Ascends, IsPlain, integer_plain, array_plain, object_plain, ArePlain, cons_plain, FieldsPlain,
  field_plain, cost, cost_items, cost_fields,
}
use liva_lang.Json.RoundTrip.Steps.{
  Begins, skip_whitespace-Begins, Begins-append, text, text-Begins, value_step, integer_step,
  word_step, string_step,
}
use liva_lang.Json.RoundTrip.Loops.{Rounds, AllRound, FieldsRound, array_step, object_step}

module _ {D : Type 0} (print_double : D → Bytes) (strtod : Bytes → D) where
  cost-positive : (v : Value D) → 1 ≤ cost v
  cost-positive null = omega arith
  cost-positive (boolean b) = omega arith
  cost-positive (integer n) = omega arith
  cost-positive (double d) = omega arith
  cost-positive (string s) = omega arith
  cost-positive (array vs) = omega arith
  cost-positive (object fs) = omega arith

  array_value :
      (vs : Items D)
      → ArePlain vs
      → AllRound print_double strtod vs
      → Rounds print_double strtod (array vs)
  unfolding dispatch serialize is_space
  array_value vs p h zero rest c s = absurd (omega arith)
  array_value vs p h (suc zero) rest c s = absurd (omega arith)
  array_value vs p h (suc (suc f)) rest c s =
      value_step print_double strtod (suc f) (text print_double strtod (array vs) ++ rest)
        (refl, refl, refl, refl)
      ∙ ap (parse_array strtod (suc f))
          (append_assoc (serialize_items print_double false vs) (b']' ∷ []) rest)
      ∙ array_step print_double strtod vs f rest p h (omega arith)

  object_value :
      (fs : Fields D)
      → Ascends end fs
      → FieldsRound print_double strtod fs
      → Rounds print_double strtod (object fs)
  unfolding dispatch serialize is_space
  object_value fs a h zero rest c s = absurd (omega arith)
  object_value fs a h (suc zero) rest c s = absurd (omega arith)
  object_value fs a h (suc (suc f)) rest c s =
      value_step print_double strtod (suc f) (text print_double strtod (object fs) ++ rest)
        (refl, refl, refl, refl)
      ∙ ap (parse_object strtod (suc f))
          (append_assoc (serialize_fields print_double false fs) (b'}' ∷ []) rest)
      ∙ object_step print_double strtod fs f rest a h (omega arith)

  scalar :
      (v : Value D)
      → IsPlain v
      → ((o a : Bytes → Result (Value D × Bytes)) (rest : Bytes)
          → Stops rest
          → dispatch_on strtod o a (text print_double strtod v ++ rest) ≡ ok (v, rest))
      → Rounds print_double strtod v
  scalar v p h zero rest c s = absurd (omega (arith, cost-positive v))
  scalar v p h (suc f) rest c s =
      value_step print_double strtod f (text print_double strtod v ++ rest)
        (Begins-append (text print_double strtod v) rest (text-Begins print_double strtod v p))
      ∙ h (parse_object strtod f) (parse_array strtod f) rest s

  mutual
    unfolding serialize

    value-Rounds : (v : Value D) → IsPlain v → Rounds print_double strtod v
    value-Rounds null p =
        scalar null p (λ o a rest s. (word_step print_double strtod o a rest true).0)
    value-Rounds (boolean b) p =
        scalar (boolean b) p (λ o a rest s. (word_step print_double strtod o a rest b).1)
    value-Rounds (integer n) (integer_plain _ h) =
        scalar (integer n) (integer_plain n h)
          (λ o a rest s. integer_step print_double strtod o a n rest h s)
    value-Rounds (double d) p = elim p [ ]
    value-Rounds (string t) p =
        scalar (string t) p (λ o a rest s. string_step print_double strtod o a t rest)
    value-Rounds (array vs) (array_plain _ ps) = array_value vs ps (items-AllRound vs ps)
    value-Rounds (object fs) (object_plain _ a ps) = object_value fs a (fields-FieldsRound fs ps)

    items-AllRound : (vs : Items D) → ArePlain vs → AllRound print_double strtod vs
    items-AllRound nil p = tt
    items-AllRound (cons v vs) (cons_plain _ _ p ps) = (value-Rounds v p, p, items-AllRound vs ps)

    fields-FieldsRound : (fs : Fields D) → FieldsPlain fs → FieldsRound print_double strtod fs
    fields-FieldsRound end p = tt
    fields-FieldsRound (field k v fs) (field_plain _ _ _ p ps) =
        (value-Rounds v p, p, fields-FieldsRound fs ps)

  Begins-positive : (t : Bytes) → Begins t → 1 ≤ length t
  Begins-positive [] h = absurd h
  Begins-positive (b ∷ bs) h = omega arith

  mutual
    unfolding serialize

    cost-length : (v : Value D) → IsPlain v → cost v ≤ 3 * length (text print_double strtod v)
    cost-length null p = omega (
      arith,
      Begins-positive (text print_double strtod null) (text-Begins print_double strtod null p),
    )
    cost-length (boolean b) p = omega (
      arith,
      Begins-positive (text print_double strtod (boolean b))
          (text-Begins print_double strtod (boolean b) p),
    )
    cost-length (integer n) p = omega (
      arith,
      Begins-positive (text print_double strtod (integer n))
          (text-Begins print_double strtod (integer n) p),
    )
    cost-length (double d) p = elim p [ ]
    cost-length (string t) p = omega (
      arith,
      Begins-positive (text print_double strtod (string t))
          (text-Begins print_double strtod (string t) p),
    )
    cost-length (array vs) (array_plain _ ps) = omega (
      arith,
      length-append (serialize_items print_double false vs) (b']' ∷ []),
      cost-items false vs ps,
    )
    cost-length (object fs) (object_plain _ a ps) = omega (
      arith,
      length-append (serialize_fields print_double false fs) (b'}' ∷ []),
      cost-fields false fs ps,
    )

    cost-items :
        (more : Bool) (vs : Items D)
        → ArePlain vs
        → cost_items vs
          ≤ 3 * length (serialize_items print_double more vs) + (if more then 0 else 1)
    cost-items more nil p = omega arith
    cost-items true (cons v vs) (cons_plain _ _ p ps) = omega (
      arith,
      length-append (text print_double strtod v) (serialize_items print_double true vs),
      cost-length v p,
      cost-items true vs ps,
    )
    cost-items false (cons v vs) (cons_plain _ _ p ps) = omega (
      arith,
      length-append (text print_double strtod v) (serialize_items print_double true vs),
      cost-length v p,
      cost-items true vs ps,
    )

    cost-fields :
        (more : Bool) (fs : Fields D)
        → FieldsPlain fs
        → cost_fields fs ≤ 3 * length (serialize_fields print_double more fs)
    cost-fields more end p = omega arith
    cost-fields more (field k v fs) (field_plain _ _ _ p ps) = omega (
      arith,
      length-append (comma more) (
          quoted k
          ++ (b':' ∷ (text print_double strtod v ++ serialize_fields print_double true fs))),
      length-append (quoted k)
          (b':' ∷ (text print_double strtod v ++ serialize_fields print_double true fs)),
      length-append (text print_double strtod v) (serialize_fields print_double true fs),
      cost-length v p,
      cost-fields true fs ps,
    )

  parse_from_step :
      (t : Bytes) (v : Value D)
      → Begins t
      → parse_value strtod (3 * length t + 3) t ≡ ok (v, [])
      → parse_from strtod t ≡ ok v
  parse_from_step [] v h e = absurd h
  parse_from_step (b ∷ bs) v h e = ap (value_of strtod) e

  -- A value with no double, with integers of 64 bits and the keys of each object in ascending
  -- order, is read back from its serialization.
  pub parse-serialize : (v : Value D) → IsPlain v → parse strtod (serialize print_double v) ≡ ok v
  unfolding parse
  parse-serialize v p =
      let b = text-Begins print_double strtod v p in
      let e =
        value-Rounds v p (3 * length (text print_double strtod v) + 3) []
          (omega (arith, cost-length v p)) tt in
      ap (parse_from strtod) (skip_whitespace-Begins (text print_double strtod v) b)
      ∙ parse_from_step (text print_double strtod v) v b (
          ap (parse_value strtod (3 * length (text print_double strtod v) + 3))
            (sym (append-nil (text print_double strtod v)))
          ∙ e)
