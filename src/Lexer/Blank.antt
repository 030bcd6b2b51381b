-- ===== src/Lexer/Blank.antt =====
-- `skipLineComment`, `skipBlockComment` and `skipWhitespace` of src/Lexer/Lexer.cpp.
-- A loop has the bytes that are left for its fuel: each round moves the cursor.
use liva_lang.Base.{
  ℕ, zero, suc, ◌+◌, ◌-◌, Bool, true, false, not, ◌&&◌, ◌||◌, [], ◌==◌, if◌then◌else◌, length,
}
use liva_lang.Lexer.State.{
  Cursor, Lexer, DiagId, advance, looking, peek_next, current_location, advance_while, move, report,
}

unfoldable pub skip_line_comment : Cursor → Cursor
unfolding advance_while
skip_line_comment c = advance_while (λ b. not (b == b'\n')) (advance (advance c))

-- The tests of the loop of `skipBlockComment`, in their order.
pub data Mark : Type 0 where
  finished opening closing other : Mark

unfoldable pub block_mark : ℕ → Cursor → Mark
unfolding looking
block_mark depth c =
    if looking 0 (λ _. true) c && not (depth == 0)
    then (if looking 0 (λ b. b == b'/') c && peek_next c == b'*'
        then opening
        else if looking 0 (λ b. b == b'*') c && peek_next c == b'/'
        then closing
        else other)
    else finished

-- `while (currentPos_ < source_.size() && depth > 0)`, with the depth that it leaves
unfoldable pub block_loop : ℕ → ℕ → Cursor → ℕ × Cursor
unfolding block_mark
block_loop zero depth c = (depth, c)
block_loop (suc fuel) depth c = elim (block_mark depth c) [
  | finished ↦ (depth, c)
  | opening ↦ block_loop fuel (depth + 1) (advance (advance c))
  | closing ↦ block_loop fuel (depth - 1) (advance (advance c))
  | other ↦ block_loop fuel depth (advance c)
]

-- The state, and whether the comment was closed.
unfoldable pub skip_block_comment : Lexer → Lexer × Bool
unfolding block_loop
skip_block_comment s =
    let start_loc = current_location s.cursor in
    let begun = advance (advance s.cursor) in
    let (depth, c) = block_loop (length begun.rest) 1 begun in
    if depth == 0 then (record s { cursor = c }, true) else (
      report start_loc DiagId.err_unterminated_block_comment [] (record s { cursor = c }),
      false,
    )

-- The tests of the loop of `skipWhitespace`, in their order.
pub data Blank : Type 0 where
  space line_comment block_comment token : Blank

unfoldable pub is_space : ℕ → Bool
is_space b = b == b' ' || b == b'\t' || b == b'\r' || b == b'\n'

unfoldable pub blank_mark : Cursor → Blank
unfolding looking is_space
blank_mark c =
    if looking 0 is_space c
    then space
    else if looking 0 (λ b. b == b'/') c && peek_next c == b'/'
    then (if looking 2 (λ b. b == b'/') c then token else line_comment)
    else if looking 0 (λ b. b == b'/') c && peek_next c == b'*'
    then block_comment
    else token

unfoldable pub blank_loop : ℕ → Lexer → Lexer
unfolding blank_mark skip_line_comment skip_block_comment
blank_loop zero s = s
blank_loop (suc fuel) s = elim (blank_mark s.cursor) [
  | space ↦ blank_loop fuel (move advance s)
  | line_comment ↦ blank_loop fuel (move skip_line_comment s)
  | block_comment ↦
      let (t, closed) = skip_block_comment s in
      let again = blank_loop fuel t in if closed then again else t
  | token ↦ s
]

unfoldable pub skip_whitespace : Lexer → Lexer
unfolding blank_loop
skip_whitespace s = blank_loop (length s.cursor.rest) s
