-- ===== src/Json/RoundTrip/Rounds.antt =====
-- One round of the loops of `parseArray` and `parseObject`.
use liva_lang.Base.{ℕ, suc, true, ◌∷◌, ◌++◌, ◌≡◌, refl, sym, ◌∙◌, Bytes}
use liva_lang.Json.Parse.{
  array_next, object_next, read_colon, read_key, parse_value, array_loop, object_loop,
}
use liva_lang.Json.Print.{quoted, serialize, serialize_items, serialize_fields}
use liva_lang.Json.RoundTrip.Number.{Stops, is_numeric}
use liva_lang.Json.RoundTrip.Text.{parse_string-quoted}
use liva_lang.Json.Scan.{ok, is_space, skip_whitespace}
use liva_lang.Json.Value.{Value, Items, nil, cons, Fields, end, field, snoc}
use liva_lang.Json.RoundTrip.Plain.{AllBelow, append_field, insert-AllBelow}

module _ {D : Type 0} (print_double : D → Bytes) (strtod : Bytes → D) where
  abbrev pub join : Items D → Items D → Items D
  join nil vs = vs
  join (cons w ws) vs = cons w (join ws vs)

  pub join-snoc :
      (acc : Items D) (v : Value D) (vs : Items D) → join (snoc acc v) vs ≡ join acc (cons v vs)
  unfolding snoc
  join-snoc nil v vs = refl
  join-snoc (cons w ws) v vs = cc (join-snoc ws v vs)

  pub join-nil : (acc : Items D) (v : Value D) → snoc acc v ≡ join acc (cons v nil)
  unfolding snoc
  join-nil nil v = refl
  join-nil (cons w ws) v = cc (join-nil ws v)

  -- What follows the element `v` of an array.
  abbrev pub items_tail : Items D → Bytes → Bytes
  items_tail vs rest = serialize_items print_double true vs ++ b']' ∷ rest

  pub items_tail-Stops : (vs : Items D) (rest : Bytes) → Stops (items_tail vs rest)
  unfolding serialize is_numeric
  items_tail-Stops nil rest = refl
  items_tail-Stops (cons v vs) rest = refl

  pub array_round :
      (f : ℕ) (acc : Items D) (v : Value D) (r : Bytes) {s : Bytes}
      → parse_value strtod f r ≡ ok (v, s)
      → array_loop strtod (suc f) acc r
        ≡ array_next strtod (array_loop strtod f (snoc acc v)) (snoc acc v) (skip_whitespace s)
  unfolding parse_value
  array_round f acc v r h = rw h

  -- An object's field and what follows it.
  abbrev pub fields_tail : Fields D → Bytes → Bytes
  fields_tail fs rest = serialize_fields print_double true fs ++ b'}' ∷ rest

  pub fields_tail-Stops : (fs : Fields D) (rest : Bytes) → Stops (fields_tail fs rest)
  unfolding serialize is_numeric
  fields_tail-Stops end rest = refl
  fields_tail-Stops (field k v fs) rest = refl

  abbrev pub extend : Fields D → Fields D → Fields D
  extend acc end = acc
  extend acc (field k v fs) = extend (append_field acc k v) fs

  pub concat : Fields D → Fields D → Fields D
  concat end gs = gs
  concat (field k v fs) gs = field k v (concat fs gs)

  pub concat-append_field :
      (acc : Fields D) (k : Bytes) (v : Value D) (fs : Fields D)
      → concat (append_field acc k v) fs ≡ concat acc (field k v fs)
  unfolding concat
  concat-append_field end k v fs = refl
  concat-append_field (field j w acc) k v fs = cc (concat-append_field acc k v fs)

  pub concat-end : (acc : Fields D) → concat acc end ≡ acc
  unfolding concat
  concat-end end = refl
  concat-end (field k v fs) = cc (concat-end fs)

  pub extend-concat : (acc fs : Fields D) → extend acc fs ≡ concat acc fs
  extend-concat acc end = sym (concat-end acc)
  extend-concat acc (field k v fs) =
      extend-concat (append_field acc k v) fs ∙ concat-append_field acc k v fs

  pub extend-end : (fs : Fields D) → extend end fs ≡ fs
  unfolding concat
  extend-end fs = extend-concat end fs

  pub key_step : (k rest : Bytes) → read_key strtod (quoted k ++ (b':' ∷ rest)) ≡ ok (k, rest)
  unfolding read_key read_colon skip_whitespace is_space
  key_step k rest = rw (parse_string-quoted k (b':' ∷ rest))

  pub object_round :
      (f : ℕ) (acc : Fields D) (k : Bytes) (v : Value D) (r : Bytes) {s : Bytes}
      → AllBelow acc k
      → parse_value strtod f r ≡ ok (v, s)
      → object_loop strtod (suc f) acc (quoted k ++ (b':' ∷ r))
        ≡ object_next strtod
            (object_loop strtod f (append_field acc k v))
            (append_field acc k v)
            (skip_whitespace s)
  unfolding parse_value skip_whitespace is_space
  object_round f acc k v r b h = rw (key_step k r) (rw h (rw (insert-AllBelow k v acc b)))
