-- ===== src/Json/Total/Scan.antt =====
-- The scanner of the JSON parser never stops for lack of fuel, and what it leaves is shorter.
use liva_lang.Base.{
  ℕ, zero, suc, ◌≤◌, ◌<◌, Bool, true, false, ◌||◌, [], ◌∷◌, ◌++◌, ◌≡◌, ◌≢◌, inl, inr, arith, Bytes,
  ◌==◌, if◌then◌else◌, length, on_if, Bool-cases,
}
use liva_lang.Base.Decimal.{is_digit}
use liva_lang.Json.Scan.{
  out_of_fuel, Result, ok, err, ◌>>=◌, skip_whitespace, is_space, unicode_escape, read_escape,
  Piece, closing, piece, read_piece, string_loop, parse_string, span_digits, span_if, span_fraction,
  span_exponent, parse_number,
}

-- A result that is no lack of fuel, and leaves fewer than `n` bytes.
abbrev pub Answers {ℓ} : {A : Type ℓ} → ℕ → Result (A × Bytes) → Type 0
Answers n (ok (a, s)) = length s < n
Answers n (err e) = e ≢ out_of_fuel

pub Answers-le {ℓ} :
    {A : Type ℓ} (n m : ℕ) (x : Result (A × Bytes)) → Answers n x → n ≤ m → Answers m x
Answers-le n m (ok (a, s)) h le = omega arith
Answers-le n m (err e) h le = h

pub Answers->>= {ℓ κ} :
    {A : Type ℓ} {B : Type κ} (n m : ℕ) (x : Result (A × Bytes))
    (next : A × Bytes → Result (B × Bytes))
    → Answers n x
    → ((a : A) (s : Bytes) → length s < n → Answers m (next (a, s)))
    → Answers m (x >>= next)
Answers->>= n m (ok (a, s)) next h k = k a s h
Answers->>= n m (err e) next h k = h

pub length-skip_whitespace : (r : Bytes) → length (skip_whitespace r) ≤ length r
unfolding skip_whitespace
length-skip_whitespace [] = omega arith
length-skip_whitespace (b ∷ bs) = elim (Bool-cases (is_space b)) [
  | inl blank ↦ rw (blank, skip_whitespace) (omega (arith, length-skip_whitespace bs))
  | inr solid ↦ rw (solid, skip_whitespace) (omega arith)
]

unicode_escape-Answers : (r : Bytes) → Answers (suc (length r)) (unicode_escape r)
unfolding unicode_escape
unicode_escape-Answers [] = λ e. cc
unicode_escape-Answers (a ∷ []) = λ e. cc
unicode_escape-Answers (a ∷ b ∷ []) = λ e. cc
unicode_escape-Answers (a ∷ b ∷ c ∷ []) = λ e. cc
unicode_escape-Answers (a ∷ b ∷ c ∷ d ∷ r) = omega arith

read_escape-Answers : (r : Bytes) → Answers (suc (length r)) (read_escape r)
unfolding read_escape
read_escape-Answers [] = λ e. cc
read_escape-Answers (e ∷ r) =
    let n = suc (suc (length r)) in
    let kept : length r < n = omega arith in
    on_if (Answers {A = Bytes} n) (e == b'"' || e == b'\\' || e == b'/') (λ h. kept)
      (λ h.
        on_if (Answers {A = Bytes} n) (e == b'b') (λ h. kept)
          (λ h.
            on_if (Answers {A = Bytes} n) (e == b'f') (λ h. kept)
              (λ h.
                on_if (Answers {A = Bytes} n) (e == b'n') (λ h. kept)
                  (λ h.
                    on_if (Answers {A = Bytes} n) (e == b'r') (λ h. kept)
                      (λ h.
                        on_if (Answers {A = Bytes} n) (e == b't') (λ h. kept)
                          (λ h.
                            on_if (Answers {A = Bytes} n) (e == b'u')
                              (λ h.
                                Answers-le (suc (length r)) n (unicode_escape r)
                                  (unicode_escape-Answers r) (omega arith))
                              (λ h k. cc)))))))

-- What a round of the loop of `parseString` leaves.
abbrev Leaves : ℕ → Piece → Type 0
Leaves n closing = Unit
Leaves n (piece x) = Answers n x

read_piece-Leaves : (c : ℕ) (r : Bytes) → Leaves (suc (length r)) (read_piece c r)
unfolding read_piece
read_piece-Leaves c r =
    on_if (Leaves (suc (length r))) (c == b'"') (λ h. tt)
      (λ h.
        on_if (Leaves (suc (length r))) (c == b'\\') (λ k. read_escape-Answers r)
          (λ k. omega arith))

string_loop-piece :
    (fuel : ℕ) (acc : Bytes) (c : ℕ) (cs : Bytes)
    → Leaves (suc (length cs)) (read_piece c cs)
    → ((more r : Bytes)
        → length r ≤ length cs
        → Answers (suc (length r)) (string_loop fuel (acc ++ more) r))
    → Answers (suc (suc (length cs))) (string_loop (suc fuel) acc (c ∷ cs))
unfolding string_loop
string_loop-piece fuel acc c cs l next = round (read_piece c cs) l
  where
    round :
        (p : Piece)
        → Leaves (suc (length cs)) p
        → Answers {A = Bytes} (suc (suc (length cs))) (elim p [
          | closing ↦ ok (acc, cs)
          | piece (ok (p, r)) ↦ string_loop fuel (acc ++ p) r
          | piece (err e) ↦ err e
        ])
    round closing l = omega arith
    round (piece (ok (p, r))) l =
        Answers-le (suc (length r)) (suc (suc (length cs))) (string_loop fuel (acc ++ p) r)
          (next p r (omega arith)) (omega arith)
    round (piece (err e)) l = l

string_loop-Answers :
    (fuel : ℕ) (acc r : Bytes) → length r < fuel → Answers (suc (length r)) (string_loop fuel acc r)
unfolding string_loop
string_loop-Answers zero acc r h = absurd (omega arith)
string_loop-Answers (suc fuel) acc [] h = λ e. cc
string_loop-Answers (suc fuel) acc (c ∷ cs) h =
    string_loop-piece fuel acc c cs (read_piece-Leaves c cs)
      (λ more r le. string_loop-Answers fuel (acc ++ more) r (omega arith))

pub parse_string-Answers : (r : Bytes) → Answers (length r) (parse_string r)
unfolding parse_string
parse_string-Answers [] = λ e. cc
parse_string-Answers (c ∷ cs) =
    on_if (Answers {A = Bytes} (suc (length cs))) (c == b'"')
      (λ h. string_loop-Answers (suc (length cs)) [] cs (omega arith)) (λ h e. cc)

length-span_digits : (r : Bytes) → length (span_digits r).1 ≤ length r
unfolding span_digits
length-span_digits [] = omega arith
length-span_digits (b ∷ bs) = ground (arith, length-span_digits bs)

length-span_if : (test : ℕ → Bool) (r : Bytes) → length (span_if test r).1 ≤ length r
unfolding span_if
length-span_if test [] = omega arith
length-span_if test (b ∷ bs) = ground arith

length-span_fraction : (r : Bytes) → length (span_fraction r).1 ≤ length r
unfolding span_fraction
length-span_fraction [] = omega arith
length-span_fraction (b ∷ bs) = ground (arith, length-span_digits bs)

length-span_exponent : (r : Bytes) → length (span_exponent r).1 ≤ length r
unfolding span_exponent
length-span_exponent [] = omega arith
length-span_exponent (b ∷ bs) =
    let s = span_if (λ c. c == b'+' || c == b'-') bs in
    ground (arith, length-span_if (λ c. c == b'+' || c == b'-') bs, length-span_digits s.1)

length-span_digits_digit :
    (b : ℕ) (bs : Bytes) → is_digit b ≡ true → length (span_digits (b ∷ bs)).1 ≤ length bs
unfolding span_digits
length-span_digits_digit b bs h = rw (h, span_digits) (length-span_digits bs)

-- A sign or a digit at the front is taken.
length-span_number :
    (b : ℕ) (bs : Bytes)
    → (b == b'-' || is_digit b) ≡ true
    → length (span_digits (span_if (λ c. c == b'-') (b ∷ bs)).1).1 ≤ length bs
unfolding span_if
length-span_number b bs h = elim (Bool-cases (b == b'-')) [
  | inl minus ↦ rw (minus, span_if) (length-span_digits bs)
  | inr other ↦ rw (other, span_if) (length-span_digits_digit b bs (ground (arith, other)))
]

choose-second :
    {A B : Type 0} (b : Bool) (x y : A) (r : B) (P : B → Type 0)
    → P r
    → P (if◌then◌else◌ {A = A × B} b (x, r) (y, r)).1
choose-second true x y r P h = h
choose-second false x y r P h = h

-- What stands behind a number that has a sign or a digit.
pub length-parse_number :
    (b : ℕ) (bs : Bytes)
    → (b == b'-' || is_digit b) ≡ true
    → length (parse_number (b ∷ bs)).1 ≤ length bs
unfolding parse_number
length-parse_number b bs h =
    let r = (span_digits (span_if (λ c. c == b'-') (b ∷ bs)).1).1 in
    let s = (span_fraction r).1 in
    choose-second _ _ _ (span_exponent s).1 (λ (t : Bytes). length t ≤ length bs)
      (omega (arith, length-span_number b bs h, length-span_fraction r, length-span_exponent s))
