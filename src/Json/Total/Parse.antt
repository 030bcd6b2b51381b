-- ===== src/Json/Total/Parse.antt =====
-- The parser's calls answer, with three calls for each byte.
use liva_lang.Base.{
  ℕ, zero, suc, ◌+◌, ◌*◌, ◌≤◌, ◌<◌, true, false, ◌||◌, [], ◌∷◌, none, some, ◌≢◌, arith, Option,
  Bytes, codes, bytes_eq, ◌==◌, length, take, drop, on_if,
}
use liva_lang.Base.Decimal.{is_digit}
use liva_lang.Json.Parse.{
  read_word, parse_bool, parse_null, dispatch, dispatch_on, array_next, object_next, read_colon,
  read_key, closes, parse_value, parse_array, array_loop, parse_object, object_loop, parse,
  parse_from, value_of,
}
use liva_lang.Json.Scan.{out_of_fuel, Result, ok, err, skip_whitespace, parse_string}
use liva_lang.Json.Total.Scan.{
  Answers, Answers-le, Answers->>=, length-skip_whitespace, parse_string-Answers,
  length-parse_number,
}
use liva_lang.Json.Value.{
  Value, null, boolean, array, object, Items, nil, Fields, end, snoc, insert,
}

pub length-drop-le : (n : ℕ) (r : Bytes) → length (drop n r) ≤ length r
length-drop-le zero r = omega arith
length-drop-le (suc n) [] = omega arith
length-drop-le (suc n) (b ∷ bs) = omega (arith, length-drop-le n bs)

module _ {D : Type 0} (strtod : Bytes → D) where
  -- What reading a value of JSON may give, in front of `n` bytes.
  abbrev Reads : ℕ → Result (Value D × Bytes) → Type 0
  Reads n x = Answers {A = Value D} n x

  read_word-Reads :
      (w : ℕ) (word : Bytes) (v : Value D) (other : Result (Value D × Bytes)) (c : ℕ) (cs : Bytes)
      → Reads (suc (length cs)) other
      → Reads (suc (length cs)) (read_word strtod (w ∷ word) v other (c ∷ cs))
  unfolding read_word
  read_word-Reads w word v other c cs h =
      on_if (Reads (suc (length cs))) (bytes_eq (take (length (w ∷ word)) (c ∷ cs)) (w ∷ word))
        (λ e. omega (arith, length-drop-le (length word) cs)) (λ e. h)

  parse_bool-Reads : (c : ℕ) (cs : Bytes) → Reads (suc (length cs)) (parse_bool strtod (c ∷ cs))
  unfolding parse_bool
  parse_bool-Reads c cs =
      read_word-Reads b't' (codes "rue") (boolean true) _ c cs
        (read_word-Reads b'f' (codes "alse") (boolean false) _ c cs (λ e. cc))

  parse_null-Reads : (c : ℕ) (cs : Bytes) → Reads (suc (length cs)) (parse_null strtod (c ∷ cs))
  unfolding parse_null
  parse_null-Reads c cs = read_word-Reads b'n' (codes "ull") null _ c cs (λ e. cc)

  dispatch-Reads :
      (o a : Bytes → Result (Value D × Bytes)) (c : ℕ) (cs : Bytes)
      → Reads (length cs) (o cs)
      → Reads (length cs) (a cs)
      → Reads (suc (length cs)) (dispatch strtod o a c cs)
  unfolding dispatch
  dispatch-Reads o a c cs ho ha =
      let n = suc (length cs) in
      on_if (Reads n) (c == b'"')
        (λ h.
          Answers->>= n n (parse_string (c ∷ cs)) _ (parse_string-Answers (c ∷ cs)) (λ s r lt. lt))
        (λ h.
          on_if (Reads n) (c == b'{') (λ h. Answers-le (length cs) n (o cs) ho (omega arith))
            (λ h.
              on_if (Reads n) (c == b'[') (λ h. Answers-le (length cs) n (a cs) ha (omega arith))
                (λ h.
                  on_if (Reads n) (c == b't' || c == b'f') (λ h. parse_bool-Reads c cs)
                    (λ h.
                      on_if (Reads n) (c == b'n') (λ h. parse_null-Reads c cs)
                        (λ h.
                          on_if (Reads n) (c == b'-' || is_digit c)
                            (λ h. omega (arith, length-parse_number c cs h)) (λ h k. cc))))))

  dispatch_on-Reads :
      (o a : Bytes → Result (Value D × Bytes)) (r : Bytes)
      → ((s : Bytes) → length s < length r → Reads (length s) (o s) × Reads (length s) (a s))
      → Reads (length r) (dispatch_on strtod o a r)
  dispatch_on-Reads o a [] h = λ e. cc
  dispatch_on-Reads o a (c ∷ cs) h =
      let (ho, ha) = h cs (omega arith) in dispatch-Reads o a c cs ho ha

  -- What follows an element of an array, or a field of an object.
  array_next-Reads :
      (again : Bytes → Result (Value D × Bytes)) (acc : Items D) (r : Bytes)
      → ((s : Bytes) → length s < length r → Reads (length s) (again s))
      → Reads (length r) (array_next strtod again acc r)
  unfolding array_next
  array_next-Reads again acc [] h = λ e. cc
  array_next-Reads again acc (c ∷ cs) h =
      let n = suc (length cs) in
      let s = skip_whitespace cs in
      on_if (Reads n) (c == b',')
        (λ k.
          Answers-le (length s) n (again s) (h s (omega (arith, length-skip_whitespace cs)))
            (omega (arith, length-skip_whitespace cs)))
        (λ k. on_if (Reads n) (c == b']') (λ k. omega arith) (λ k e. cc))

  object_next-Reads :
      (again : Bytes → Result (Value D × Bytes)) (acc : Fields D) (r : Bytes)
      → ((s : Bytes) → length s < length r → Reads (length s) (again s))
      → Reads (length r) (object_next strtod again acc r)
  unfolding object_next
  object_next-Reads again acc [] h = λ e. cc
  object_next-Reads again acc (c ∷ cs) h =
      let n = suc (length cs) in
      let s = skip_whitespace cs in
      on_if (Reads n) (c == b',')
        (λ k.
          Answers-le (length s) n (again s) (h s (omega (arith, length-skip_whitespace cs)))
            (omega (arith, length-skip_whitespace cs)))
        (λ k. on_if (Reads n) (c == b'}') (λ k. omega arith) (λ k e. cc))

  read_colon-Answers : (key r : Bytes) → Answers {A = Bytes} (length r) (read_colon strtod key r)
  unfolding read_colon
  read_colon-Answers key [] = λ e. cc
  read_colon-Answers key (c ∷ cs) =
      on_if (Answers {A = Bytes} (suc (length cs))) (c == b':') (λ h. omega arith) (λ h e. cc)

  read_key-Answers : (r : Bytes) → Answers {A = Bytes} (length r) (read_key strtod r)
  unfolding read_key
  read_key-Answers [] = λ e. cc
  read_key-Answers (c ∷ cs) =
      let n = suc (length cs) in
      on_if (Answers {A = Bytes} n) (c == b'"')
        (λ h. Answers->>= n n (parse_string (c ∷ cs)) _ (parse_string-Answers (c ∷ cs)) (λ key s lt.
          Answers-le (length (skip_whitespace s)) n (read_colon strtod key (skip_whitespace s))
            (read_colon-Answers key (skip_whitespace s)) (omega (arith, length-skip_whitespace s))))
        (λ h e. cc)

  closes-Reads :
      (b : ℕ) (r : Bytes) (v : Value D) (other : Result (Value D × Bytes))
      → Reads (length r) other
      → Reads (length r) (elim (closes strtod b r) [ none ↦ other | some t ↦ ok (v, t) ])
  closes-Reads b [] v other h = h
  closes-Reads b (c ∷ cs) v other h =
      on_if
        (λ (o : Option Bytes).
          Reads (suc (length cs)) (elim o [ none ↦ other | some t ↦ ok (v, t) ]))
        (c == b) (λ e. omega arith) (λ e. h)

  mutual
    unfolding parse_value

    value-Reads :
        (f : ℕ) (r : Bytes) → 3 * length r + 1 ≤ f → Reads (length r) (parse_value strtod f r)
    value-Reads zero r le = absurd (omega arith)
    value-Reads (suc f) r le =
        let s = skip_whitespace r in
        Answers-le (length s) (length r) _
          (dispatch_on-Reads (parse_object strtod f) (parse_array strtod f) s (λ t lt. (
            object-Reads f t (omega (arith, length-skip_whitespace r)),
            array-Reads f t (omega (arith, length-skip_whitespace r)),
          )))
          (length-skip_whitespace r)

    array-Reads :
        (f : ℕ) (r : Bytes) → 3 * length r + 3 ≤ f → Reads (length r) (parse_array strtod f r)
    array-Reads zero r le = absurd (omega arith)
    array-Reads (suc f) r le =
        let s = skip_whitespace r in
        Answers-le (length s) (length r) _
          (closes-Reads b']' s (array nil) (array_loop strtod f nil s)
            (array_loop-Reads f nil s (omega (arith, length-skip_whitespace r))))
          (length-skip_whitespace r)

    array_loop-Reads :
        (f : ℕ) (acc : Items D) (r : Bytes)
        → 3 * length r + 2 ≤ f
        → Reads (length r) (array_loop strtod f acc r)
    array_loop-Reads zero acc r le = absurd (omega arith)
    array_loop-Reads (suc f) acc r le =
        Answers->>= (length r) (length r) (parse_value strtod f r) _ (value-Reads f r (omega arith))
          (λ v s lt.
            Answers-le (length (skip_whitespace s)) (length r) _
              (array_next-Reads (array_loop strtod f (snoc acc v)) (snoc acc v) (skip_whitespace s)
                (λ t less.
                  array_loop-Reads f (snoc acc v) t (omega (arith, length-skip_whitespace s))))
              (omega (arith, length-skip_whitespace s)))

    object-Reads :
        (f : ℕ) (r : Bytes) → 3 * length r + 3 ≤ f → Reads (length r) (parse_object strtod f r)
    object-Reads zero r le = absurd (omega arith)
    object-Reads (suc f) r le =
        let s = skip_whitespace r in
        Answers-le (length s) (length r) _
          (closes-Reads b'}' s (object end) (object_loop strtod f end s)
            (object_loop-Reads f end s (omega (arith, length-skip_whitespace r))))
          (length-skip_whitespace r)

    object_loop-Reads :
        (f : ℕ) (acc : Fields D) (r : Bytes)
        → 3 * length r + 2 ≤ f
        → Reads (length r) (object_loop strtod f acc r)
    object_loop-Reads zero acc r le = absurd (omega arith)
    object_loop-Reads (suc f) acc r le =
        let n = length r in
        let m = length (skip_whitespace r) in
        Answers->>= m n (read_key strtod (skip_whitespace r)) _
          (read_key-Answers (skip_whitespace r))
          (λ k q qt.
            Answers->>= (length q) n (parse_value strtod f q) _
              (value-Reads f q (omega (arith, length-skip_whitespace r)))
              (λ v s lt.
                Answers-le (length (skip_whitespace s)) n _
                  (object_next-Reads (object_loop strtod f (insert k v acc)) (insert k v acc)
                    (skip_whitespace s)
                    (λ t less.
                      object_loop-Reads f (insert k v acc) t
                        (omega (arith, length-skip_whitespace s, length-skip_whitespace r))))
                  (omega (arith, length-skip_whitespace s, length-skip_whitespace r))))

  answers-value_of :
      (n : ℕ) (x : Result (Value D × Bytes)) → Reads n x → value_of strtod x ≢ err out_of_fuel
  answers-value_of n (ok (v, r)) h = λ e. cc
  answers-value_of n (err stop) h = λ e. h (cc e)

  parse_from-ne : (r : Bytes) → parse_from strtod r ≢ err out_of_fuel
  parse_from-ne [] = λ e. cc
  parse_from-ne (c ∷ cs) =
      let r = c ∷ cs in
      answers-value_of (length r) (parse_value strtod (3 * length r + 3) r)
        (value-Reads (3 * length r + 3) r (omega arith))

  -- On every input `parse` answers with a value or with an error of the code: three calls for each
  -- byte and three more are never used up.
  pub parse-ne-out_of_fuel : (input : Bytes) → parse strtod input ≢ err out_of_fuel
  unfolding parse
  parse-ne-out_of_fuel input = parse_from-ne (skip_whitespace input)
