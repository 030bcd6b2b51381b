-- ===== src/Driver/Format/Again.antt =====
-- Formatting what was formatted.
use liva_lang.Base.{
  ℕ, zero, suc, ◌*◌, Bool, true, false, ◌&&◌, not, List, [], ◌∷◌, ◌++◌, Bytes, ◌==◌, ◌≡◌, refl, sym,
  ap, ◌∙◌, arith, inl, inr, Bool-cases,
}
use mathlib.Core.List.{append-nil, append_assoc}
use liva_lang.Driver.Version.Constraint.{is_blank, trim_front, keep_blank, trim_back, trim_str}
use liva_lang.Driver.Format.{
  last_line, split_from, split_lines, spaces, line_depth, indented, format_line, next_depth,
  format_lines, format_liva_source,
}
use liva_lang.Driver.Format.Lines.{formatted, join, format_lines-join, formatted_twice}

-- Splitting: no byte of a line ends a line.
abbrev is_inner : ℕ → Bool
is_inner b = not (b == b'\n') && not (b == b'\r')

abbrev IsLine : Bytes → Type 0
IsLine [] = Unit
IsLine (b ∷ bs) = (is_inner b ≡ true) × IsLine bs

abbrev AreLines : List Bytes → Type 0
AreLines [] = Unit
AreLines (l ∷ ls) = IsLine l × AreLines ls

inner_tests : (b : ℕ) → is_inner b ≡ true → ((b == b'\n') ≡ false) × ((b == b'\r') ≡ false)
inner_tests b h = (ground (arith, h), ground (arith, h))

IsLine-append : (s t : Bytes) → IsLine s → IsLine t → IsLine (s ++ t)
IsLine-append [] t h k = k
IsLine-append (b ∷ s) t h k = (h.0, IsLine-append s t h.1 k)

last_line-AreLines : (ended : Bool) (line : Bytes) → IsLine line → AreLines (last_line ended line)
last_line-AreLines true [] h = (tt, tt)
last_line-AreLines false [] h = tt
last_line-AreLines ended (b ∷ bs) h = (h, tt)

split_from-AreLines :
    (line : Bytes) (ended : Bool) (s : Bytes) → IsLine line → AreLines (split_from line ended s)
unfolding split_from
split_from-AreLines line ended [] h = last_line-AreLines ended line h
split_from-AreLines line ended (b ∷ bs) h = elim (Bool-cases (b == b'\n')) [
  | inl t ↦ rw t (h, split_from-AreLines [] true bs tt)
  | inr t ↦ elim (Bool-cases (b == b'\r')) [
    | inl u ↦ rw (t, u) (split_from-AreLines line false bs h)
    | inr u ↦
        rw (t, u)
          (split_from-AreLines (line ++ b ∷ []) false bs
            (IsLine-append line (b ∷ []) h (rw (t, u) refl, tt)))
  ]
]

trim_front-IsLine : (s : Bytes) → IsLine s → IsLine (trim_front s)
unfolding trim_front
trim_front-IsLine [] h = tt
trim_front-IsLine (b ∷ bs) h = elim (Bool-cases (is_blank b)) [
  | inl t ↦ rw t (trim_front-IsLine bs h.1)
  | inr t ↦ rw t h
]

keep_blank-IsLine : (b : ℕ) (r : Bytes) → is_inner b ≡ true → IsLine r → IsLine (keep_blank b r)
keep_blank-IsLine b [] h k = elim (Bool-cases (is_blank b)) [
  | inl t ↦ rw t tt
  | inr t ↦ rw t (h, tt)
]
keep_blank-IsLine b (c ∷ cs) h k = (h, k)

trim_back-IsLine : (s : Bytes) → IsLine s → IsLine (trim_back s)
unfolding trim_back
trim_back-IsLine [] h = tt
trim_back-IsLine (b ∷ bs) h = keep_blank-IsLine b (trim_back bs) h.0 (trim_back-IsLine bs h.1)

spaces-IsLine : (n : ℕ) → IsLine (spaces n)
unfolding spaces
spaces-IsLine zero = tt
spaces-IsLine (suc n) = (refl, spaces-IsLine n)

indented-IsLine : (d : ℕ) (t : Bytes) → IsLine t → IsLine (indented d t)
indented-IsLine d [] h = tt
indented-IsLine d (b ∷ bs) h =
    IsLine-append (spaces (line_depth d (b ∷ bs) * 4)) (b ∷ bs) (spaces-IsLine _) h

format_line-IsLine : (d : ℕ) (l : Bytes) → IsLine l → IsLine (format_line d l)
unfolding format_line trim_str
format_line-IsLine d l h =
    indented-IsLine d (trim_back (trim_front l))
      (trim_back-IsLine (trim_front l) (trim_front-IsLine l h))

formatted-AreLines : (d : ℕ) (ls : List Bytes) → AreLines ls → AreLines (formatted d ls)
formatted-AreLines d [] h = tt
formatted-AreLines d (l ∷ ls) h =
    (format_line-IsLine d l h.0, formatted-AreLines (next_depth d l) ls h.1)

-- A line in front of the rest
split_from-IsLine :
    (line : Bytes) (ended : Bool) (b : ℕ) (f rest : Bytes)
    → IsLine (b ∷ f)
    → split_from line ended ((b ∷ f) ++ rest) ≡ split_from (line ++ b ∷ f) false rest
unfolding split_from
split_from-IsLine line ended b [] rest h = let t = inner_tests b h.0 in rw (t.0, t.1) refl
split_from-IsLine line ended b (c ∷ f) rest h =
    let t = inner_tests b h.0 in
    rw (t.0, t.1)
      (split_from-IsLine (line ++ b ∷ []) false c f rest h.1
        ∙ ap (λ (x : Bytes). split_from x false rest) (append_assoc line (b ∷ []) (c ∷ f)))

split_from-newline :
    (ended : Bool) (f rest : Bytes)
    → IsLine f
    → split_from [] ended (f ++ b'\n' ∷ rest) ≡ f ∷ split_from [] true rest
split_from-newline ended [] rest h = unfold split_from in refl
split_from-newline ended (b ∷ f) rest h =
    split_from-IsLine [] ended b f (b'\n' ∷ rest) h ∙ (unfold split_from in refl)

split_from-last : (ended : Bool) (f : Bytes) → IsLine f → split_from [] ended f ≡ last_line ended f
split_from-last ended [] h = unfold split_from in refl
split_from-last ended (b ∷ f) h =
    ap (split_from [] ended) (sym (append-nil (b ∷ f)))
    ∙ split_from-IsLine [] ended b f [] h
    ∙ (unfold split_from in refl)

-- The lines of joined lines, behind a newline
split_from-join :
    (f : Bytes) (fs : List Bytes) → AreLines (f ∷ fs) → split_from [] true (join (f ∷ fs)) ≡ f ∷ fs
split_from-join [] [] h = split_from-last true [] h.0
split_from-join (b ∷ f) [] h = split_from-last true (b ∷ f) h.0
split_from-join f (g ∷ fs) h =
    split_from-newline true f (join (g ∷ fs)) h.0 ∙ ap (◌∷◌ f) (split_from-join g fs h.1)

-- Lines that were formatted are found again, but for a single empty one.
format_lines-split :
    (fs : List Bytes) → AreLines fs → format_lines 0 (split_lines (join fs)) ≡ format_lines 0 fs
unfolding split_lines
format_lines-split [] h = unfold split_from in refl
format_lines-split ([] ∷ []) h =
    unfold split_from format_lines format_line trim_str trim_front trim_back in refl
format_lines-split ((b ∷ f) ∷ []) h = ap (format_lines 0) (split_from-last false (b ∷ f) h.0)
format_lines-split (f ∷ g ∷ fs) h =
    ap (format_lines 0)
      (split_from-newline false f (join (g ∷ fs)) h.0 ∙ ap (◌∷◌ f) (split_from-join g fs h.1))

-- To format a source that was formatted changes nothing.
pub format_liva_source_twice :
    (content : Bytes) → format_liva_source (format_liva_source content) ≡ format_liva_source content
unfolding format_liva_source
format_liva_source_twice content =
    let ls = split_lines content in
    let clean : AreLines ls = unfold split_lines in split_from-AreLines [] false content tt in
    ap (λ (x : Bytes). format_lines 0 (split_lines x)) (format_lines-join 0 ls)
    ∙ format_lines-split (formatted 0 ls) (formatted-AreLines 0 ls clean)
    ∙ format_lines-join 0 (formatted 0 ls)
    ∙ ap join (formatted_twice 0 ls)
    ∙ sym (format_lines-join 0 ls)
