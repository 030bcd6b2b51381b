-- ===== src/Driver/Format.antt =====
-- `formatLivaSource` of src/Driver/Formatter.cpp.
use liva_lang.Base.{
  ℕ, zero, suc, ◌+◌, ◌-◌, ◌*◌, Bool, true, false, ◌||◌, not, List, [], ◌∷◌, ◌++◌, Bytes, ◌==◌,
  if◌then◌else◌,
}
use liva_lang.Driver.Version.Constraint.{trim_str}
pub mod Lines
pub mod Again
mod Tests

-- The end of the content: a line that is not empty, or one behind a newline
abbrev pub last_line : Bool → Bytes → List Bytes
last_line ended [] = if ended then [] ∷ [] else []
last_line ended (b ∷ bs) = (b ∷ bs) ∷ []

-- The lines, behind `currentLine`; `ended` says whether a newline was the last byte.
unfoldable pub split_from : Bytes → Bool → Bytes → List Bytes
split_from line ended [] = last_line ended line
split_from line ended (b ∷ bs) =
    let after_newline = split_from [] true bs in
    let after_return = split_from line false bs in
    let after_byte = split_from (line ++ b ∷ []) false bs in
    if b == b'\n' then line ∷ after_newline else (if b == b'\r' then after_return else after_byte)

unfoldable pub split_lines : Bytes → List Bytes
unfolding split_from
split_lines content = split_from [] false content

unfoldable pub count_byte : ℕ → Bytes → ℕ
count_byte c [] = 0
count_byte c (b ∷ bs) = let rest = count_byte c bs in if b == c then suc rest else rest

unfoldable pub spaces : ℕ → Bytes
spaces zero = []
spaces (suc n) = b' ' ∷ spaces n

-- `lineDepth` of a trimmed line
abbrev pub line_depth : ℕ → Bytes → ℕ
line_depth d [] = d
line_depth d (b ∷ bs) = if b == b'}' then d - 1 else d

abbrev pub indented : ℕ → Bytes → Bytes
indented d [] = []
indented d (b ∷ bs) = spaces (line_depth d (b ∷ bs) * 4) ++ b ∷ bs

unfoldable pub format_line : ℕ → Bytes → Bytes
unfolding trim_str spaces
format_line d line = indented d (trim_str line)

-- The depth behind a line, which is never below 0
unfoldable pub next_depth : ℕ → Bytes → ℕ
unfolding trim_str count_byte
next_depth d line = d + count_byte b'{' (trim_str line) - count_byte b'}' (trim_str line)

unfoldable pub format_lines : ℕ → List Bytes → Bytes
unfolding format_line next_depth
format_lines d [] = []
format_lines d (l ∷ []) = format_line d l
format_lines d (l ∷ m ∷ ls) = format_line d l ++ b'\n' ∷ format_lines (next_depth d l) (m ∷ ls)

-- `formatLivaSource`
unfoldable pub format_liva_source : Bytes → Bytes
unfolding split_lines format_lines
format_liva_source content = format_lines 0 (split_lines content)
