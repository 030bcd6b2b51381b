-- ===== src/Driver/Format/Lines.antt =====
-- Lines that were formatted, and formatted again.
use liva_lang.Base.{
  ℕ, zero, suc, ◌*◌, false, List, [], ◌∷◌, ◌++◌, Bytes, ◌≡◌, refl, ap, ◌∙◌, inl, inr, Bool-cases,
}
use liva_lang.Driver.Version.Constraint.{is_blank, trim_front, keep_blank, trim_back, trim_str}
use liva_lang.Driver.Format.{spaces, line_depth, indented, format_line, next_depth, format_lines}

trim_front-spaces : (n : ℕ) (s : Bytes) → trim_front (spaces n ++ s) ≡ trim_front s
unfolding trim_front spaces
trim_front-spaces zero s = refl
trim_front-spaces (suc n) s = trim_front-spaces n s

trim_back-keep_blank :
    (b : ℕ) (r : Bytes) → trim_back r ≡ r → trim_back (keep_blank b r) ≡ keep_blank b r
unfolding trim_back
trim_back-keep_blank b [] h = elim (Bool-cases (is_blank b)) [
  | inl t ↦ rw t refl
  | inr t ↦ rw t (rw t refl)
]
trim_back-keep_blank b (c ∷ cs) h = ap (keep_blank b) h

trim_back_twice : (s : Bytes) → trim_back (trim_back s) ≡ trim_back s
unfolding trim_back
trim_back_twice [] = refl
trim_back_twice (b ∷ bs) = trim_back-keep_blank b (trim_back bs) (trim_back_twice bs)

keep_blank-byte : (b : ℕ) (r : Bytes) → is_blank b ≡ false → keep_blank b r ≡ b ∷ r
keep_blank-byte b [] h = rw h refl
keep_blank-byte b (c ∷ cs) h = refl

-- The front of what was trimmed in front
front_kept : (s : Bytes) → trim_front (trim_back (trim_front s)) ≡ trim_back (trim_front s)
unfolding trim_front trim_back
front_kept [] = refl
front_kept (b ∷ bs) = elim (Bool-cases (is_blank b)) [
  | inl t ↦ rw t (front_kept bs)
  | inr t ↦ rw t (rw (keep_blank-byte b (trim_back bs) t) (rw t refl))
]

trim_str_twice : (s : Bytes) → trim_str (trim_str s) ≡ trim_str s
unfolding trim_str
trim_str_twice s = ap trim_back (front_kept s) ∙ trim_back_twice (trim_front s)

trim_str-spaces : (n : ℕ) (s : Bytes) → trim_str (spaces n ++ s) ≡ trim_str s
unfolding trim_str
trim_str-spaces n s = ap trim_back (trim_front-spaces n s)

trim_str-indented : (d : ℕ) (t : Bytes) → trim_str t ≡ t → trim_str (indented d t) ≡ t
trim_str-indented d [] h = h
trim_str-indented d (b ∷ bs) h = trim_str-spaces (line_depth d (b ∷ bs) * 4) (b ∷ bs) ∙ h

trim_str-format_line : (d : ℕ) (l : Bytes) → trim_str (format_line d l) ≡ trim_str l
unfolding format_line
trim_str-format_line d l = trim_str-indented d (trim_str l) (trim_str_twice l)

-- The formatted lines
abbrev pub formatted : ℕ → List Bytes → List Bytes
formatted d [] = []
formatted d (l ∷ ls) = format_line d l ∷ formatted (next_depth d l) ls

abbrev pub join : List Bytes → Bytes
join [] = []
join (l ∷ []) = l
join (l ∷ m ∷ ls) = l ++ b'\n' ∷ join (m ∷ ls)

pub format_lines-join : (d : ℕ) (ls : List Bytes) → format_lines d ls ≡ join (formatted d ls)
unfolding format_lines
format_lines-join d [] = refl
format_lines-join d (l ∷ []) = refl
format_lines-join d (l ∷ m ∷ ls) =
    ap (λ (x : Bytes). format_line d l ++ b'\n' ∷ x) (format_lines-join (next_depth d l) (m ∷ ls))

format_line_twice : (d : ℕ) (l : Bytes) → format_line d (format_line d l) ≡ format_line d l
unfolding format_line
format_line_twice d l = ap (indented d) (trim_str-format_line d l)

next_depth-format_line : (d e : ℕ) (l : Bytes) → next_depth e (format_line d l) ≡ next_depth e l
unfolding next_depth
next_depth-format_line d e l = rw (trim_str-format_line d l) refl

pub formatted_twice : (d : ℕ) (ls : List Bytes) → formatted d (formatted d ls) ≡ formatted d ls
formatted_twice d [] = refl
formatted_twice d (l ∷ ls) =
    rw (format_line_twice d l, next_depth-format_line d d l, formatted_twice (next_depth d l) ls)
      refl
