-- ===== src/Driver/Version/RoundTrip.antt =====
-- The text of a version is read back.
use Prim.Native.Nat.{ℕ, ◌<◌, ◌^◌}
use liva_lang.Base.{
  true, false, [], ◌∷◌, ◌++◌, some, Bytes, ◌==◌, ◌≡◌, ◌≢◌, refl, sym, ap, ◌∙◌, arith,
}
use mathlib.Core.List.{append-nil}
use liva_lang.Base.Decimal.{
  ℤ, pos, print_ℤ, digits, value_from, is_digit, AreDigits, AreDigits-digits, value_from-digits,
  digits-cons,
}
use liva_lang.Driver.Version.{
  to_string, is_c_space, skip_spaces, split_digits, clamp, read_digits, read_signed, strtol, to_int,
  VersionResult, dotted, with_major, c_str, parse_sem_ver,
}
use liva_lang.Driver.Version.Ranges.{version}

-- No digit follows.
abbrev Ends : Bytes → Type 0
Ends [] = Unit
Ends (b ∷ bs) = is_digit b ≡ false

split_digits-AreDigits :
    (ds rest : Bytes) → AreDigits ds → Ends rest → split_digits (ds ++ rest) ≡ (ds, rest)
unfolding split_digits
split_digits-AreDigits [] [] h k = refl
split_digits-AreDigits [] (b ∷ bs) h k = ground (arith, k)
split_digits-AreDigits (d ∷ ds) rest h k = rw (split_digits-AreDigits ds rest h.1 k, h.0) refl

not_space : (b : ℕ) → is_digit b ≡ true → is_c_space b ≡ false
not_space b h = ground (arith, h)

not_sign : (b : ℕ) → is_digit b ≡ true → ((b == b'-') ≡ false) × ((b == b'+') ≡ false)
not_sign b h = (ground (arith, h), ground (arith, h))

skip_spaces-digit : (b : ℕ) (x : Bytes) → is_digit b ≡ true → skip_spaces (b ∷ x) ≡ b ∷ x
unfolding skip_spaces
skip_spaces-digit b x h = rw (not_space b h) refl

read_signed-digit :
    (b : ℕ) (x : Bytes)
    → is_digit b ≡ true
    → read_signed (b ∷ x) ≡ read_digits false (split_digits (b ∷ x))
read_signed-digit b x h = rw ((not_sign b h).0, (not_sign b h).1) refl

read_first :
    (b : ℕ) (bs rest : Bytes)
    → AreDigits (b ∷ bs)
    → Ends rest
    → strtol ((b ∷ bs) ++ rest) ≡ some (clamp false (value_from 0 (b ∷ bs)), rest)
unfolding strtol
read_first b bs rest h k =
    ap read_signed (skip_spaces-digit b (bs ++ rest) h.0)
    ∙ read_signed-digit b (bs ++ rest) h.0
    ∙ ap (read_digits false) (split_digits-AreDigits (b ∷ bs) rest h k)

clamped : (m n : ℕ) → m ≡ n → n < 2 ^ 31 → clamp false m ≡ pos n
clamped m n e h = ground (arith, e, h)

strtol-digits :
    (n : ℕ) (rest : Bytes) → n < 2 ^ 31 → Ends rest → strtol (digits n ++ rest) ≡ some (pos n, rest)
strtol-digits n rest h k =
    let (b, bs, e) = digits-cons n in
    let d : AreDigits (b ∷ bs) = rw e at (AreDigits-digits n) in
    let v : value_from 0 (b ∷ bs) ≡ n = rw e at (value_from-digits n) in
    rw e (
      read_first b bs rest d k
      ∙ ap (λ (x : ℤ). some (x, rest)) (clamped (value_from 0 (b ∷ bs)) n v h))

to_int-small : (n : ℕ) → n < 2 ^ 31 → to_int n ≡ pos n
unfolding to_int
to_int-small n h = ground (arith, h)

-- A text without NUL
abbrev NoNul : Bytes → Type 0
NoNul [] = Unit
NoNul (b ∷ bs) = (b ≢ 0) × NoNul bs

c_str-NoNul : (s : Bytes) → NoNul s → c_str s ≡ s
unfolding c_str
c_str-NoNul [] h = refl
c_str-NoNul (b ∷ bs) h = rw (c_str-NoNul bs h.1) (ground (arith, h.0))

NoNul-append : (ds s : Bytes) → AreDigits ds → NoNul s → NoNul (ds ++ s)
NoNul-append [] s h k = k
NoNul-append (d ∷ ds) s h k = (ground (arith, h.0), NoNul-append ds s h.1 k)

read_version :
    (a b c : ℕ)
    → a < 2 ^ 31
    → b < 2 ^ 31
    → c < 2 ^ 31
    → with_major (dotted (strtol (digits a ++ b'.' ∷ (digits b ++ b'.' ∷ (digits c ++ [])))))
      ≡ VersionResult.ok (version a b c)
read_version a b c h k l =
    rw
      (
        strtol-digits a (b'.' ∷ (digits b ++ b'.' ∷ (digits c ++ []))) h refl,
        strtol-digits b (b'.' ∷ (digits c ++ [])) k refl,
        strtol-digits c [] l tt,
        to_int-small a h,
        to_int-small b k,
        to_int-small c l,
      )
      refl

text_NoNul : (a b c : ℕ) → NoNul (digits a ++ b'.' ∷ (digits b ++ b'.' ∷ (digits c ++ [])))
text_NoNul a b c = NoNul-append (digits a) _ (AreDigits-digits a) (
  (λ e. ground (arith, e)),
  NoNul-append (digits b) _ (AreDigits-digits b)
      ((λ e. ground (arith, e)), NoNul-append (digits c) [] (AreDigits-digits c) tt),
)

-- The text of a version, with what follows it
abbrev full_text : ℕ → ℕ → ℕ → Bytes
full_text a b c = digits a ++ b'.' ∷ (digits b ++ b'.' ∷ (digits c ++ []))

to_string-full : (a b c : ℕ) → to_string (version a b c) ≡ full_text a b c
unfolding to_string print_ℤ
to_string-full a b c =
    ap (λ (x : Bytes). digits a ++ b'.' ∷ (digits b ++ b'.' ∷ x)) (sym (append-nil (digits c)))

-- `parseSemVer` where the text is not empty.
parse_cons : (s : Bytes) → s ≢ [] → NoNul s → parse_sem_ver s ≡ with_major (dotted (strtol s))
unfolding parse_sem_ver
parse_cons [] e h = absurd (e refl)
parse_cons (b ∷ bs) e h =
    ap (λ (t : Bytes). with_major (dotted (strtol t))) (c_str-NoNul (b ∷ bs) h)

full_text-cons : (a b c : ℕ) → full_text a b c ≢ []
full_text-cons a b c q =
    let (d, ds, e) = digits-cons a in
    let r : (d ∷ ds) ++ b'.' ∷ (digits b ++ b'.' ∷ (digits c ++ [])) ≡ [] = rw e at q in
    ground (arith, r)

-- `parseSemVer` reads back what `toString` writes for a version whose parts are numbers of an `int`
-- that are not negative.
pub parse_sem_ver-to_string :
    (a b c : ℕ)
    → a < 2 ^ 31
    → b < 2 ^ 31
    → c < 2 ^ 31
    → parse_sem_ver (to_string (version a b c)) ≡ VersionResult.ok (version a b c)
parse_sem_ver-to_string a b c h k l =
    ap parse_sem_ver (to_string-full a b c)
    ∙ parse_cons (full_text a b c) (full_text-cons a b c) (text_NoNul a b c)
    ∙ read_version a b c h k l
