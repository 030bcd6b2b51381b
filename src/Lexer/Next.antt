-- ===== src/Lexer/Next.antt =====
-- `nextToken`, `peekToken`, `lexAll`, `saveState` and `restoreState` of the lexer.
use liva_lang.Base.{
  ℕ, zero, suc, ◌+◌, ◌-◌, Bool, true, false, ◌&&◌, List, [], ◌∷◌, Option, none, some, ◌==◌, Bytes,
  if◌then◌else◌, length, drop,
}
use liva_lang.Lexer.Blank.{skip_whitespace}
use liva_lang.Lexer.Kinds.{TokenKind, is_eof_kind}
use liva_lang.Lexer.Literals.{
  is_ident_start, is_digit, is_lifetime, lex_identifier_or_keyword, lex_number, lex_char,
  lex_doc_comment, lex_lifetime,
}
use liva_lang.Lexer.State.{
  Cursor, Lexer, Token, DiagId, advance, looking, peek, current_location, make_token,
  make_token_text, move, report,
}
use liva_lang.Lexer.Strings.{lex_string, lex_string_continuation}

-- A case of the switch over operators: after the byte, `match` is tried on each byte of the list
-- in turn, and the last kind is for none of them.
pub record Operator : Type 0 where
  pub byte : ℕ
  pub longer : List (ℕ × TokenKind)
  pub alone : TokenKind

abbrev op : ℕ → List (ℕ × TokenKind) → TokenKind → Operator
op b l k = record { byte = b; longer = l; alone = k }

-- The cases of the switch but `(`, `)` and `.`.
unfoldable pub operators : List Operator
operators =
    op b'{' [] TokenKind.l_brace
    ∷ op b'}' [] TokenKind.r_brace
    ∷ op b'[' [] TokenKind.l_bracket
    ∷ op b']' [] TokenKind.r_bracket
    ∷ op b',' [] TokenKind.comma
    ∷ op b';' [] TokenKind.semicolon
    ∷ op b'@' [] TokenKind.at
    ∷ op b'#' [] TokenKind.hash
    ∷ op b'?' ((b'?', TokenKind.question_question) ∷ (b'.', TokenKind.question_dot) ∷ [])
        TokenKind.question
    ∷ op b'~' [] TokenKind.tilde
    ∷ op b'$' [] TokenKind.dollar
    ∷ op b':' ((b':', TokenKind.coloncolon) ∷ []) TokenKind.colon
    ∷ op b'+' ((b'=', TokenKind.plus_equal) ∷ []) TokenKind.plus
    ∷ op b'-' ((b'>', TokenKind.arrow) ∷ (b'=', TokenKind.minus_equal) ∷ []) TokenKind.minus
    ∷ op b'*' ((b'=', TokenKind.star_equal) ∷ []) TokenKind.star
    ∷ op b'/' ((b'=', TokenKind.slash_equal) ∷ []) TokenKind.slash
    ∷ op b'%' ((b'=', TokenKind.percent_equal) ∷ []) TokenKind.percent
    ∷ op b'=' ((b'=', TokenKind.equal_equal) ∷ (b'>', TokenKind.fat_arrow) ∷ []) TokenKind.equal
    ∷ op b'!' ((b'=', TokenKind.bang_equal) ∷ []) TokenKind.bang
    ∷ op b'<' ((b'=', TokenKind.less_equal) ∷ (b'<', TokenKind.less_less) ∷ []) TokenKind.less
    ∷ op b'>' ((b'=', TokenKind.greater_equal) ∷ (b'>', TokenKind.greater_greater) ∷ [])
        TokenKind.greater
    ∷ op b'&' ((b'&', TokenKind.amp_amp) ∷ []) TokenKind.amp
    ∷ op b'|' ((b'|', TokenKind.pipe_pipe) ∷ []) TokenKind.pipe
    ∷ op b'^' [] TokenKind.caret
    ∷ []

unfoldable pub find_operator : List Operator → ℕ → Option Operator
find_operator [] b = none
find_operator (o ∷ os) b = if o.byte == b then some o else find_operator os b

-- The chain of `match` calls: the kind, and the cursor behind what was matched.
unfoldable pub match_longer : List (ℕ × TokenKind) → TokenKind → Cursor → TokenKind × Cursor
match_longer [] alone c = (alone, c)
match_longer ((b, k) ∷ l) alone c = if peek c == b then (k, advance c) else match_longer l alone c

-- `case '.'`; the cursor is behind the dot.
unfoldable pub match_dots : Cursor → TokenKind × Cursor
match_dots c =
    if peek c == b'.'
    then (let d = advance c in
        if peek d == b'.'
        then (TokenKind.ellipsis, advance d)
        else if peek d == b'='
        then (TokenKind.dotdotequal, advance d)
        else (TokenKind.dotdot, d))
    else (TokenKind.dot, c)

-- A call ends with a token, or reports a byte and calls `nextToken` again.
pub data Outcome : Type 0 where
  done : Token × Lexer → Outcome
  again : Lexer → Outcome

abbrev pub with_cursor : Lexer → Token × Cursor → Outcome
with_cursor s (t, c) = done (t, record s { cursor = c })

abbrev pub emit : Lexer → ℕ → TokenKind × Cursor → Outcome
emit s start (k, c) = done (make_token k start c, record s { cursor = c })

-- `interpParenDepth_` is at least 1 inside an interpolation, so that the subtraction does not stop.
unfoldable pub close_paren : ℕ → Lexer → Outcome
unfolding make_token lex_string_continuation
close_paren start s =
    if s.in_interpolation
    then (let depth = s.interp_paren_depth - 1 in
        if depth == 0
        then (done (
            lex_string_continuation (record s {
              interp_paren_depth = depth;
              in_interpolation = false;
              continue_string = true;
            })))
        else emit (record s { interp_paren_depth = depth }) start (TokenKind.r_paren, s.cursor))
    else emit s start (TokenKind.r_paren, s.cursor)

unfoldable pub open_paren : ℕ → Lexer → Outcome
unfolding make_token
open_paren start s =
    let depth = if s.in_interpolation then s.interp_paren_depth + 1 else s.interp_paren_depth in
    emit (record s { interp_paren_depth = depth }) start (TokenKind.l_paren, s.cursor)

-- "Punctuators and operators": the byte `b` at the cursor is read, and the switch is over it.
unfoldable pub lex_operator : ℕ → Lexer → Outcome
unfolding make_token open_paren close_paren operators find_operator match_longer match_dots
lex_operator b s =
    let start = s.cursor.pos in
    let t = move advance s in
    if b == b'('
    then open_paren start t
    else if b == b')'
    then close_paren start t
    else if b == b'.'
    then emit t start (match_dots t.cursor)
    else elim (find_operator operators b) [
      | some o ↦ emit t start (match_longer o.longer o.alone t.cursor)
      | none ↦ again (report (current_location s.cursor) DiagId.err_unexpected_character (b ∷ []) t)
    ]

-- Three slashes, the first of them the byte `b` at the cursor.
unfoldable pub at_doc_comment : ℕ → Cursor → Bool
unfolding looking
at_doc_comment b c = b == b'/' && looking 1 (λ b. b == b'/') c && looking 2 (λ b. b == b'/') c

-- The dispatch of `nextToken` on the byte at the cursor.
unfoldable pub dispatch : ℕ → Lexer → Outcome
unfolding at_doc_comment is_ident_start is_digit is_lifetime lex_identifier_or_keyword lex_number
    lex_char lex_doc_comment lex_lifetime lex_string lex_string_continuation lex_operator
dispatch b s =
    if at_doc_comment b s.cursor
    then with_cursor s (lex_doc_comment s.cursor)
    else if is_ident_start b
    then with_cursor s (lex_identifier_or_keyword s.cursor)
    else if is_digit b
    then with_cursor s (lex_number s.cursor)
    else if s.continue_string
    then done (lex_string_continuation s)
    else if b == b'"'
    then done (lex_string s)
    else if b == b'\''
    then (if is_lifetime s.cursor then with_cursor s (lex_lifetime s.cursor) else done (lex_char s))
    else lex_operator b s

-- The end of the input, or the dispatch.
unfoldable pub lex_at : Bytes → Lexer → Outcome
unfolding dispatch make_token_text
lex_at [] s =
    done (record { kind = TokenKind.eof; location = current_location s.cursor; text = [] }, s)
lex_at (b ∷ _) s = dispatch b s

-- `nextToken` with fuel for its calls of itself; `none` if the fuel runs out.
unfoldable pub next_with : ℕ → Lexer → Option (Token × Lexer)
unfolding lex_at skip_whitespace
next_with zero s = none
next_with (suc fuel) s =
    if s.has_peeked
    then some (s.peeked_token, record s { has_peeked = false })
    else (let t = skip_whitespace s in
        elim (lex_at t.cursor.rest t) [ done r ↦ some r | again u ↦ next_with fuel u ])

-- Each call of itself is behind a byte that was read, so these calls are enough.
unfoldable pub next_token : Lexer → Option (Token × Lexer)
unfolding next_with
next_token s = next_with (suc (length s.cursor.rest)) s

unfoldable pub peek_token : Lexer → Option (Token × Lexer)
unfolding next_token
peek_token s = if s.has_peeked then some (s.peeked_token, s) else elim (next_token s) [
  | none ↦ none
  | some (t, u) ↦ some (t, record u { peeked_token = t; has_peeked = true })
]

-- `lexAll` with fuel for its loop; `none` if the fuel runs out.
unfoldable pub lex_all_with : ℕ → Lexer → Option (List Token × Lexer)
lex_all_with zero s = none
lex_all_with (suc fuel) s = elim (next_token s) [
  | none ↦ none
  | some (t, u) ↦ elim (is_eof_kind t.kind) [
    | true ↦ some (t ∷ [], u)
    | false ↦ elim (lex_all_with fuel u) [ none ↦ none | some (ts, v) ↦ some (t ∷ ts, v) ]
  ]
]

-- A token for each byte at most, the token read ahead, and the end.
unfoldable pub lex_all : Lexer → Option (List Token × Lexer)
unfolding lex_all_with next_token
lex_all s = lex_all_with (length s.cursor.rest + 2) s

-- `Lexer::State`, `saveState`, `restoreState`
pub record Saved : Type 0 where
  pub pos : ℕ
  pub line : ℕ
  pub column : ℕ
  pub has_peeked : Bool
  pub peeked_token : Token
  pub in_interpolation : Bool
  pub interp_paren_depth : ℕ
  pub continue_string : Bool

unfoldable pub save_state : Lexer → Saved
save_state s = record {
  pos = s.cursor.pos;
  line = s.cursor.line;
  column = s.cursor.column;
  has_peeked = s.has_peeked;
  peeked_token = s.peeked_token;
  in_interpolation = s.in_interpolation;
  interp_paren_depth = s.interp_paren_depth;
  continue_string = s.continue_string;
}

unfoldable pub restore_state : Saved → Lexer → Lexer
restore_state v s = record {
  cursor = record {
    source = s.cursor.source;
    rest = drop v.pos s.cursor.source;
    pos = v.pos;
    line = v.line;
    column = v.column;
  };
  diags = s.diags;
  has_peeked = v.has_peeked;
  peeked_token = v.peeked_token;
  in_interpolation = v.in_interpolation;
  interp_paren_depth = v.interp_paren_depth;
  continue_string = v.continue_string;
}
