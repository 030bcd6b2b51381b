-- ===== src/Driver/Version/Solid.antt =====
-- Texts without blanks and commas.
use Prim.Native.Nat.{ℕ}
use liva_lang.Base.{
  Bool, true, false, ◌&&◌, not, [], ◌∷◌, ◌++◌, none, some, Bytes, ◌==◌, ◌≡◌, refl, ap, ◌∙◌, arith,
}
use liva_lang.Base.Decimal.{print_ℤ, digits, is_digit, AreDigits, AreDigits-digits, digits-cons}
use liva_lang.Driver.Version.{to_string}
use liva_lang.Driver.Version.Constraint.{
  is_blank, trim_front, keep_blank, trim_back, trim_str, split_comma,
}
use liva_lang.Driver.Version.Ranges.{version}

-- No blank and no comma.
abbrev is_solid : ℕ → Bool
is_solid b = not (is_blank b) && not (b == b',')

abbrev pub IsSolid : Bytes → Type 0
IsSolid [] = Unit
IsSolid (b ∷ bs) = (is_solid b ≡ true) × IsSolid bs

-- No blank.
abbrev pub IsTight : Bytes → Type 0
IsTight [] = Unit
IsTight (b ∷ bs) = (is_blank b ≡ false) × IsTight bs

solid_tight : (b : ℕ) → is_solid b ≡ true → (is_blank b ≡ false) × ((b == b',') ≡ false)
solid_tight b h = (ground (arith, h), ground (arith, h))

pub IsSolid-IsTight : (s : Bytes) → IsSolid s → IsTight s
IsSolid-IsTight [] h = tt
IsSolid-IsTight (b ∷ bs) h = ((solid_tight b h.0).0, IsSolid-IsTight bs h.1)

pub IsTight-append : (s t : Bytes) → IsTight s → IsTight t → IsTight (s ++ t)
IsTight-append [] t h k = k
IsTight-append (b ∷ s) t h k = (h.0, IsTight-append s t h.1 k)

trim_front-IsTight : (s : Bytes) → IsTight s → trim_front s ≡ s
unfolding trim_front
trim_front-IsTight [] h = refl
trim_front-IsTight (b ∷ bs) h = rw h.0 refl

keep_blank-tight : (b : ℕ) (r : Bytes) → is_blank b ≡ false → keep_blank b r ≡ b ∷ r
keep_blank-tight b [] h = rw h refl
keep_blank-tight b (c ∷ cs) h = refl

trim_back-IsTight : (s : Bytes) → IsTight s → trim_back s ≡ s
unfolding trim_back
trim_back-IsTight [] h = refl
trim_back-IsTight (b ∷ bs) h =
    ap (keep_blank b) (trim_back-IsTight bs h.1) ∙ keep_blank-tight b bs h.0

pub trim_str-IsTight : (s : Bytes) → IsTight s → trim_str s ≡ s
unfolding trim_str
trim_str-IsTight s h = ap trim_back (trim_front-IsTight s h) ∙ trim_back-IsTight s h

pub split_comma-IsSolid : (s : Bytes) → IsSolid s → split_comma s ≡ none
unfolding split_comma
split_comma-IsSolid [] h = refl
split_comma-IsSolid (b ∷ bs) h = rw ((solid_tight b h.0).1, split_comma-IsSolid bs h.1) refl

pub split_comma-append : (s t : Bytes) → IsSolid s → split_comma (s ++ b',' ∷ t) ≡ some (s, t)
unfolding split_comma
split_comma-append [] t h = refl
split_comma-append (b ∷ s) t h = rw ((solid_tight b h.0).1, split_comma-append s t h.1) refl

IsSolid-append : (ds s : Bytes) → AreDigits ds → IsSolid s → IsSolid (ds ++ s)
IsSolid-append [] s h k = k
IsSolid-append (d ∷ ds) s h k = (ground (arith, h.0), IsSolid-append ds s h.1 k)

-- A text as `toString` writes it: a digit, and no blank and no comma.
pub to_string-IsSolid : (a b c : ℕ) → IsSolid (to_string (version a b c))
unfolding to_string print_ℤ
to_string-IsSolid a b c = IsSolid-append (digits a) _ (AreDigits-digits a) (
  ground arith,
  IsSolid-append (digits b) _ (AreDigits-digits b)
      (ground arith, solid_digits (digits c) (AreDigits-digits c)),
)
  where
    solid_digits : (ds : Bytes) → AreDigits ds → IsSolid ds
    solid_digits [] h = tt
    solid_digits (d ∷ ds) h = (ground (arith, h.0), solid_digits ds h.1)

pub to_string-cons :
    (a b c : ℕ) → (d : ℕ) × (r : Bytes) × (to_string (version a b c) ≡ d ∷ r) × (is_digit d ≡ true)
unfolding to_string print_ℤ
to_string-cons a b c =
    let (d, r, e) = digits-cons a in
    let q : AreDigits (d ∷ r) = rw e at (AreDigits-digits a) in
    let t : Bytes = b'.' ∷ (digits b ++ b'.' ∷ digits c) in
    (d, r ++ t, ap (λ (x : Bytes). x ++ t) e, q.0)
