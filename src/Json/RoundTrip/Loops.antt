-- ===== src/Json/RoundTrip/Loops.antt =====
-- The loops of `parseArray` and `parseObject` read back what `serialize` wrote.
use mathlib.Core.List.{append_assoc}
use liva_lang.Base.{ℕ, zero, suc, ◌≤◌, true, false, [], ◌∷◌, ◌++◌, ◌≡◌, refl, ◌∙◌, ap, arith, Bytes}
use liva_lang.Json.Parse.{
  array_next, object_next, closes, parse_value, parse_array, array_loop, parse_object, object_loop,
}
use liva_lang.Json.Print.{quoted, serialize, serialize_items, serialize_fields}
use liva_lang.Json.RoundTrip.Number.{Stops}
use liva_lang.Json.Scan.{ok, is_space, skip_whitespace}
use liva_lang.Json.Value.{Value, array, object, Items, nil, cons, Fields, end, field, snoc}
use liva_lang.Json.RoundTrip.Plain.{
  append_field, Ascends, IsPlain, ArePlain, cost, cost_items, cost_fields,
}
use liva_lang.Json.RoundTrip.Steps.{
  Begins, skip_whitespace-Begins, Begins-append, text, text-Begins,
}
use liva_lang.Json.RoundTrip.Rounds.{
  join, join-snoc, join-nil, items_tail, items_tail-Stops, array_round, fields_tail,
  fields_tail-Stops, extend, extend-end, object_round,
}

module _ {D : Type 0} (print_double : D → Bytes) (strtod : Bytes → D) where
  -- The value is read back, with fuel for its cost.
  abbrev pub Rounds : Value D → Type 0
  Rounds v =
      (f : ℕ) (rest : Bytes)
      → cost v ≤ f
      → Stops rest
      → parse_value strtod f (text print_double strtod v ++ rest) ≡ ok (v, rest)

  abbrev pub AllRound : Items D → Type 0
  AllRound nil = Unit
  AllRound (cons v vs) = Rounds v × IsPlain v × AllRound vs

  abbrev pub FieldsRound : Fields D → Type 0
  FieldsRound end = Unit
  FieldsRound (field k v fs) = Rounds v × IsPlain v × FieldsRound fs

  -- Behind a comma the next text is taken up.
  pub resume :
      {R : Type 0} (next : Bytes → R) (v : Value D) (more rest : Bytes)
      → IsPlain v
      → next (skip_whitespace ((text print_double strtod v ++ more) ++ rest))
        ≡ next (text print_double strtod v ++ (more ++ rest))
  resume next v more rest p = ap next (
      ap skip_whitespace (append_assoc (text print_double strtod v) more rest)
      ∙ skip_whitespace-Begins _ (Begins-append _ _ (text-Begins print_double strtod v p)))

  pub items_round :
      (v : Value D) (vs : Items D) (f : ℕ) (acc : Items D) (rest : Bytes)
      → AllRound (cons v vs)
      → cost_items (cons v vs) ≤ f
      → array_loop strtod f acc
          (text print_double strtod v ++ items_tail print_double strtod vs rest)
        ≡ ok (array (join print_double strtod acc (cons v vs)), rest)
  unfolding array_next skip_whitespace is_space serialize
  items_round v vs zero acc rest h c = absurd (omega arith)
  items_round v nil (suc f) acc rest h c =
      array_round print_double strtod f acc v _ (
        h.0 f (items_tail print_double strtod nil rest) (omega arith)
          (items_tail-Stops print_double strtod nil rest))
      ∙ rw (join-nil print_double strtod acc v)
  items_round v (cons w ws) (suc f) acc rest h c =
      array_round print_double strtod f acc v _ (
        h.0 f (items_tail print_double strtod (cons w ws) rest) (omega arith)
          (items_tail-Stops print_double strtod (cons w ws) rest))
      ∙ resume (array_loop strtod f (snoc acc v)) w (serialize_items print_double true ws)
          (b']' ∷ rest) h.2.1
      ∙ items_round w ws f (snoc acc v) rest h.2 (omega arith)
      ∙ rw (join-snoc print_double strtod acc v (cons w ws))

  pub fields_round :
      (k : Bytes) (v : Value D) (fs : Fields D) (f : ℕ) (acc : Fields D) (rest : Bytes)
      → FieldsRound (field k v fs)
      → Ascends acc (field k v fs)
      → cost_fields (field k v fs) ≤ f
      → object_loop strtod f acc (
          quoted k
          ++ (b':' ∷ (text print_double strtod v ++ fields_tail print_double strtod fs rest)))
        ≡ ok (object (extend print_double strtod acc (field k v fs)), rest)
  unfolding object_next skip_whitespace is_space serialize
  fields_round k v fs zero acc rest h a c = absurd (omega arith)
  fields_round k v end (suc f) acc rest h a c = object_round print_double strtod f acc k v _ a.0 (
      h.0 f (fields_tail print_double strtod end rest) (omega arith)
        (fields_tail-Stops print_double strtod end rest))
  fields_round k v (field j w ws) (suc f) acc rest h a c =
      object_round print_double strtod f acc k v _ a.0 (
        h.0 f (fields_tail print_double strtod (field j w ws) rest) (omega arith)
          (fields_tail-Stops print_double strtod (field j w ws) rest))
      ∙ ap (object_loop strtod f (append_field acc k v)) (
          append_assoc (quoted j)
            (b':' ∷ (text print_double strtod w ++ serialize_fields print_double true ws))
            (b'}' ∷ rest)
          ∙ ap (λ (t : Bytes). quoted j ++ (b':' ∷ t))
              (append_assoc (text print_double strtod w) (serialize_fields print_double true ws)
                (b'}' ∷ rest)))
      ∙ fields_round j w ws f (append_field acc k v) rest h.2 a.1 (omega arith)

  pub array_open :
      (f : ℕ) (t : Bytes) → Begins t → parse_array strtod (suc f) t ≡ array_loop strtod f nil t
  unfolding parse_value skip_whitespace
  array_open f [] h = absurd h
  array_open f (b ∷ bs) h =
      rw (h.0, h.1, parse_array, closes, skip_whitespace)
        (ap (array_loop strtod f nil) (skip_whitespace-Begins (b ∷ bs) h))

  pub array_step :
      (vs : Items D) (f : ℕ) (rest : Bytes)
      → ArePlain vs
      → AllRound vs
      → cost_items vs ≤ f
      → parse_array strtod (suc f) (serialize_items print_double false vs ++ (b']' ∷ rest))
        ≡ ok (array vs, rest)
  unfolding parse_value serialize skip_whitespace is_space
  array_step nil f rest p h c = refl
  array_step (cons v vs) f rest p h c =
      ap (parse_array strtod (suc f)) (
        append_assoc (text print_double strtod v) (serialize_items print_double true vs)
          (b']' ∷ rest))
      ∙ array_open f (text print_double strtod v ++ items_tail print_double strtod vs rest) (
          Begins-append (text print_double strtod v) (items_tail print_double strtod vs rest)
            (text-Begins print_double strtod v h.1))
      ∙ items_round v vs f nil rest h c

  pub object_step :
      (fs : Fields D) (f : ℕ) (rest : Bytes)
      → Ascends end fs
      → FieldsRound fs
      → cost_fields fs ≤ f
      → parse_object strtod (suc f) (serialize_fields print_double false fs ++ (b'}' ∷ rest))
        ≡ ok (object fs, rest)
  unfolding parse_value serialize skip_whitespace is_space
  object_step end f rest a h c = refl
  object_step (field k v fs) f rest a h c =
      ap (object_loop strtod f end) (
        append_assoc (quoted k)
          (b':' ∷ (text print_double strtod v ++ serialize_fields print_double true fs))
          (b'}' ∷ rest)
        ∙ ap (λ (t : Bytes). quoted k ++ (b':' ∷ t))
            (append_assoc (text print_double strtod v) (serialize_fields print_double true fs)
              (b'}' ∷ rest)))
      ∙ fields_round k v fs f end rest h a c
      ∙ ap (λ (gs : Fields D). ok (object gs, rest)) (extend-end print_double strtod (field k v fs))
