-- ===== src/Lexer/Literals.antt =====
-- `lexIdentifierOrKeyword`, `lexNumber`, `lexChar` and `lexDocComment` of src/Lexer/Lexer.cpp.
-- The classes of `<cctype>` are those of the "C" locale.
use liva_lang.Base.{
  ℕ, Bool, true, false, not, ◌&&◌, ◌||◌, [], ◌∷◌, Bytes, ◌==◌, leb, if◌then◌else◌, bytes_eq,
}
use liva_lang.Lexer.Kinds.{TokenKind, lookup_keyword}
use liva_lang.Lexer.State.{
  Cursor, Lexer, Token, DiagId, advance, looking, current_location, make_token, make_token_text,
  text_from, advance_while, report,
}

abbrev pub within : ℕ → ℕ → ℕ → Bool
within lo hi b = leb lo b && leb b hi

unfoldable pub is_digit : ℕ → Bool
is_digit b = within b'0' b'9' b

unfoldable pub is_alpha : ℕ → Bool
is_alpha b = within b'a' b'z' b || within b'A' b'Z' b

unfoldable pub is_xdigit : ℕ → Bool
unfolding is_digit
is_xdigit b = is_digit b || within b'a' b'f' b || within b'A' b'F' b

-- `std::isalpha(c) || c == '_'`, `std::isalnum(c) || c == '_'`
unfoldable pub is_ident_start : ℕ → Bool
unfolding is_alpha
is_ident_start b = is_alpha b || b == b'_'

unfoldable pub is_ident : ℕ → Bool
unfolding is_alpha is_digit
is_ident b = is_alpha b || is_digit b || b == b'_'

unfoldable pub kind_of_word : TokenKind → Bytes → TokenKind
unfolding bytes_eq
kind_of_word TokenKind.kw_true text = TokenKind.bool_literal
kind_of_word TokenKind.kw_false text = TokenKind.bool_literal
kind_of_word kind text = if bytes_eq text (b'_' ∷ []) then TokenKind.underscore else kind

unfoldable pub word_kind : Bytes → TokenKind
unfolding lookup_keyword kind_of_word
word_kind text = kind_of_word (lookup_keyword text) text

unfoldable pub lex_identifier_or_keyword : Cursor → Token × Cursor
unfolding word_kind is_ident advance_while make_token_text
lex_identifier_or_keyword c =
    let end = advance_while is_ident c in
    let text = text_from c.pos end in (make_token_text (word_kind text) c.pos text end, end)

-- One of the three prefixed forms: `0x`, `0b`, `0o` and the bytes that it takes.
abbrev pub prefixed : (ℕ → Bool) → Cursor → Token × Cursor
prefixed test c =
    let end = advance_while (λ b. test b || b == b'_') (advance (advance c)) in
    (make_token TokenKind.integer_literal c.pos end, end)

-- `if (currentPos_ < source_.size() && test(source_[currentPos_])) advance();`
unfoldable pub skip_if : (ℕ → Bool) → Cursor → Cursor
unfolding looking
skip_if test c = if looking 0 test c then advance c else c

-- "Decimal digits", "Decimal point" and "Exponent": each gives the cursor behind it, and the last
-- two whether they found something.
unfoldable pub digits_part : Cursor → Cursor
unfolding advance_while is_digit
digits_part = advance_while (λ b. is_digit b || b == b'_')

unfoldable pub at_point : Cursor → Bool
unfolding looking is_digit
at_point c = looking 0 (λ b. b == b'.') c && looking 1 is_digit c

unfoldable pub point_part : Cursor → Bool × Cursor
unfolding digits_part at_point
point_part c = if at_point c then (true, digits_part (advance c)) else (false, c)

abbrev pub is_e : ℕ → Bool
is_e b = b == b'e' || b == b'E'

unfoldable pub exponent_part : Cursor → Bool × Cursor
unfolding advance_while is_digit looking skip_if
exponent_part c =
    if looking 0 is_e c
    then (let marked = advance c in
        (true, advance_while is_digit (skip_if (λ b. b == b'+' || b == b'-') marked)))
    else (false, c)

abbrev pub number_kind : Bool → TokenKind
number_kind is_float = if is_float then TokenKind.float_literal else TokenKind.integer_literal

unfoldable pub lex_decimal : Cursor → Token × Cursor
unfolding digits_part point_part exponent_part make_token
lex_decimal c =
    let (pointed, p) = point_part (digits_part c) in
    let (scaled, e) = exponent_part p in (make_token (number_kind (pointed || scaled)) c.pos e, e)

-- The prefix `0` and a letter that `test` takes.
unfoldable pub at_prefix : (ℕ → Bool) → Cursor → Bool
unfolding looking
at_prefix test c = looking 0 (λ b. b == b'0') c && looking 1 test c

abbrev pub is_x : ℕ → Bool
is_x b = b == b'x' || b == b'X'

abbrev pub is_b : ℕ → Bool
is_b b = b == b'b' || b == b'B'

abbrev pub is_o : ℕ → Bool
is_o b = b == b'o' || b == b'O'

unfoldable pub lex_number : Cursor → Token × Cursor
unfolding is_xdigit at_prefix make_token advance_while lex_decimal
lex_number c =
    if at_prefix is_x c
    then prefixed is_xdigit c
    else if at_prefix is_b c
    then prefixed (λ b. b == b'0' || b == b'1') c
    else if at_prefix is_o c
    then prefixed (λ b. within b'0' b'7' b) c
    else lex_decimal c

-- The byte or the escape between the quotes.
unfoldable pub char_body : Cursor → Cursor
unfolding looking skip_if
char_body c =
    if looking 0 (λ b. b == b'\\') c then skip_if (λ _. true) (advance c) else skip_if (λ _. true) c

unfoldable pub lex_char : Lexer → Token × Lexer
unfolding looking make_token char_body skip_if
lex_char s =
    let start = s.cursor.pos in
    let begun = advance s.cursor in
    if looking 0 (λ b. b == b'\'') begun
    then (let end = advance begun in
        (
          make_token TokenKind.char_literal start end,
          report (current_location s.cursor) DiagId.err_empty_char_literal []
              (record s { cursor = end }),
        ))
    else (let end = skip_if (λ b. b == b'\'') (char_body begun) in
        (make_token TokenKind.char_literal start end, record s { cursor = end }))

-- The text has no slashes and no leading blank; the token starts at the slashes.
unfoldable pub lex_doc_comment : Cursor → Token × Cursor
unfolding skip_if advance_while make_token_text
lex_doc_comment c =
    let begun = skip_if (λ b. b == b' ') (advance (advance (advance c))) in
    let end = advance_while (λ b. not (b == b'\n')) begun in
    (make_token_text TokenKind.doc_comment c.pos (text_from begun.pos end) end, end)

-- `'a` not closed by a quote: the identifier part behind the quote is scanned ahead.
unfoldable pub is_lifetime : Cursor → Bool
unfolding looking is_ident_start is_ident advance_while
is_lifetime c =
    if looking 1 is_ident_start c
    then (let id_end = advance_while is_ident (advance (advance c)) in
        not (looking 0 (λ b. b == b'\'') id_end))
    else false

unfoldable pub lex_lifetime : Cursor → Token × Cursor
unfolding is_ident advance_while make_token
lex_lifetime c =
    let end = advance_while is_ident (advance c) in
    (make_token TokenKind.lifetime_literal c.pos end, end)
