-- ===== src/Lexer/Strings.antt =====
-- `lexString` and `lexStringContinuation` of src/Lexer/Lexer.cpp. A loop has the bytes that are
-- left for its fuel: each round moves the cursor.
use liva_lang.Base.{
  ℕ, zero, suc, Bool, true, false, not, ◌&&◌, ◌||◌, [], ◌∷◌, ◌==◌, if◌then◌else◌, length, codes,
}
use liva_lang.Lexer.Kinds.{TokenKind}
use liva_lang.Lexer.Literals.{skip_if}
use liva_lang.Lexer.State.{
  Cursor, Lexer, Token, SourceLocation, DiagId, advance, looking, current_location, make_token,
  advance_while, move, report, peek,
}

-- Whether the three bytes at the cursor are quotes.
unfoldable pub at_triple : Cursor → Bool
unfolding looking
at_triple c =
    looking 0 (λ b. b == b'"') c && looking 1 (λ b. b == b'"') c && looking 2 (λ b. b == b'"') c

-- A backslash and the byte behind it, if there is one.
abbrev pub skip_escaped : Cursor → Cursor
skip_escaped c = skip_if (λ _. true) (advance c)

pub data Triple : Type 0 where
  short closing escaped plain : Triple

-- The tests of the loop that scans for the closing quotes, in their order.
unfoldable pub triple_mark : Cursor → Triple
unfolding looking at_triple
triple_mark c =
    if looking 2 (λ _. true) c
    then (if at_triple c then closing else if looking 0 (λ b. b == b'\\') c then escaped else plain)
    else short

-- The cursor, and whether the closing quotes were found.
unfoldable pub triple_loop : ℕ → Cursor → Bool × Cursor
unfolding triple_mark skip_if
triple_loop zero c = (false, c)
triple_loop (suc fuel) c = elim (triple_mark c) [
  | short ↦ (false, c)
  | closing ↦ (true, advance (advance (advance c)))
  | escaped ↦ triple_loop fuel (skip_escaped c)
  | plain ↦ triple_loop fuel (advance c)
]

-- Whether the two bytes of a carriage return and a newline are at the cursor.
unfoldable pub at_crlf : Cursor → Bool
unfolding looking
at_crlf c = looking 0 (λ b. b == b'\r') c && looking 1 (λ b. b == b'\n') c

-- The newline right behind the opening quotes.
unfoldable pub skip_newline : Cursor → Cursor
unfolding looking at_crlf
skip_newline c =
    if looking 0 (λ b. b == b'\n') c
    then advance c
    else if at_crlf c
    then advance (advance c)
    else c

-- The triple-quoted form; `c` is behind the first quote.
unfoldable pub lex_triple : ℕ → SourceLocation → Cursor → Lexer → Token × Lexer
unfolding triple_loop skip_newline make_token
lex_triple start start_loc c s =
    let begun = skip_newline (advance (advance c)) in
    let (found, end) = triple_loop (length begun.rest) begun in
    let tok = make_token TokenKind.string_literal start end in
    let t = record s { cursor = end } in
    (tok, if found then t else report start_loc DiagId.err_unterminated_string [] t)

pub data Piece : Type 0 where
  closed interpolation escape line_end plain : Piece

-- The tests of the loops over a string's body, in their order; `closed` ends the loop.
unfoldable pub piece_mark : Cursor → Piece
unfolding looking
piece_mark c =
    if looking 0 (λ b. not (b == b'"')) c
    then (if looking 0 (λ b. b == b'\\') c
        then (if looking 1 (λ b. b == b'(') c then Piece.interpolation else Piece.escape)
        else if looking 0 (λ b. b == b'\n') c
        then Piece.line_end
        else Piece.plain)
    else Piece.closed

abbrev pub is_escape : ℕ → Bool
is_escape b =
    b == b'n' || b == b't' || b == b'r' || b == b'\\' || b == b'"' || b == b'\'' || b == b'0'

-- `\u{XXXX}`, from behind the `u`.
unfoldable pub lex_unicode_escape : Lexer → Lexer
unfolding looking advance_while codes skip_if
lex_unicode_escape s =
    let u = s.cursor in
    if looking 0 (λ b. b == b'{') u
    then (let close = advance_while (λ b. not (b == b'}')) (advance u) in
        record s { cursor = skip_if (λ _. true) close })
    else report (current_location u) DiagId.err_invalid_escape_sequence
        (codes "u (expected \\u{XXXX})") s

-- The escape at the cursor, with its diagnostics.
unfoldable pub lex_escape : Lexer → Lexer
unfolding looking lex_unicode_escape
lex_escape s =
    let c = advance s.cursor in
    let t = record s { cursor = c } in
    if looking 0 (λ b. b == b'u') c
    then lex_unicode_escape (move advance t)
    else if looking 0 is_escape c
    then move advance t
    else if looking 0 (λ _. true) c
    then (move advance
        (report (current_location c) DiagId.err_invalid_escape_sequence (peek c ∷ []) t))
    else t

-- The loop of `lexString`: the state, and whether an interpolation was met.
unfoldable pub string_loop : ℕ → SourceLocation → Lexer → Bool × Lexer
unfolding piece_mark lex_escape
string_loop zero start_loc s = (false, s)
string_loop (suc fuel) start_loc s = elim (piece_mark s.cursor) [
  | closed ↦ (false, s)
  | interpolation ↦ (true, s)
  | escape ↦ string_loop fuel start_loc (lex_escape s)
  | line_end ↦ (false, report start_loc DiagId.err_unterminated_string [] s)
  | plain ↦ string_loop fuel start_loc (move advance s)
]

-- `\(`: the token ends before it, and the interpolated expression is lexed as tokens.
abbrev pub open_interpolation : Lexer → Lexer
open_interpolation s = record s {
  cursor = advance (advance s.cursor);
  in_interpolation = true;
  interp_paren_depth = 1;
}

-- Behind the loop: the closing quote, or the byte that ended the line, is skipped.
unfoldable pub close_string : SourceLocation → Lexer → Lexer
unfolding looking
close_string start_loc s =
    if looking 0 (λ _. true) s.cursor
    then move advance s
    else report start_loc DiagId.err_unterminated_string [] s

unfoldable pub lex_plain_string : ℕ → SourceLocation → Lexer → Token × Lexer
unfolding string_loop close_string make_token
lex_plain_string start start_loc s =
    let (interpolated, t) = string_loop (length s.cursor.rest) start_loc s in
    if interpolated
    then (make_token TokenKind.string_interp_begin start t.cursor, open_interpolation t)
    else (let u = close_string start_loc t in
        (make_token TokenKind.string_literal start u.cursor, u))

-- Whether the second and the third quote of a triple-quoted string are at the cursor.
unfoldable pub at_double : Cursor → Bool
unfolding looking
at_double c = looking 0 (λ b. b == b'"') c && looking 1 (λ b. b == b'"') c

unfoldable pub lex_string : Lexer → Token × Lexer
unfolding lex_triple lex_plain_string at_double
lex_string s =
    let start = s.cursor.pos in
    let start_loc = current_location s.cursor in
    let c = advance s.cursor in
    if at_double c
    then lex_triple start start_loc c s
    else lex_plain_string start start_loc (record s { cursor = c })

-- The loop of `lexStringContinuation`: the cursor, and whether an interpolation was met.
unfoldable pub continuation_loop : ℕ → Cursor → Bool × Cursor
unfolding piece_mark skip_if
continuation_loop zero c = (false, c)
continuation_loop (suc fuel) c = elim (piece_mark c) [
  | closed ↦ (false, c)
  | interpolation ↦ (true, c)
  | escape ↦ continuation_loop fuel (skip_escaped c)
  | line_end ↦ (false, c)
  | plain ↦ continuation_loop fuel (advance c)
]

unfoldable pub lex_string_continuation : Lexer → Token × Lexer
unfolding continuation_loop skip_if make_token
lex_string_continuation s =
    let start = s.cursor.pos in
    let (interpolated, c) = continuation_loop (length s.cursor.rest) s.cursor in
    let t = record s { cursor = c; continue_string = false } in
    if interpolated
    then (make_token TokenKind.string_interp_mid start c, open_interpolation t)
    else (let end = skip_if (λ b. b == b'"') c in
        (make_token TokenKind.string_interp_end start end, record t { cursor = end }))
