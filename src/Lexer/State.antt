-- ===== src/Lexer/State.antt =====
-- The state of include/liva/Lexer/Lexer.h, and the primitive moves of src/Lexer/Lexer.cpp:
-- `advance`, `peek`, `peekNext`, `match`, `currentLocation`, `makeToken`.
-- `source_` is a list of bytes; `rest` is its part from `currentPos_` on, so that
-- `currentPos_ < source_.size()` is `rest` being non-empty and `source_[currentPos_ + k]` is its
-- element number `k`.
use liva_lang.Base.{
  ℕ, ◌+◌, ◌-◌, ◌%◌, ◌^◌, Bool, true, false, List, [], ◌∷◌, ◌++◌, none, some, Bytes, ◌==◌,
  if◌then◌else◌, get_elem?, take, drop,
}
use liva_lang.Lexer.Kinds.{TokenKind}

-- `uint32_t` and `size_t`
abbrev pub u32 : ℕ → ℕ
u32 n = n % 2 ^ 32

pub record SourceLocation : Type 0 where
  pub line : ℕ
  pub column : ℕ
  pub offset : ℕ

pub record Token : Type 0 where
  pub kind : TokenKind
  pub location : SourceLocation
  pub text : Bytes

-- The diagnostics that the lexer reports.
pub data DiagId : Type 0 where
  err_unterminated_block_comment err_unterminated_string err_empty_char_literal : DiagId
  err_unexpected_character err_invalid_escape_sequence : DiagId

-- One call of `DiagnosticsEngine::report`.
pub record Diagnostic : Type 0 where
  pub loc : SourceLocation
  pub id : DiagId
  pub arg : Bytes

-- `source_`, `currentPos_`, `currentLine_`, `currentColumn_`
pub record Cursor : Type 0 where
  pub source : Bytes
  pub rest : Bytes
  pub pos : ℕ
  pub line : ℕ
  pub column : ℕ

pub record Lexer : Type 0 where
  pub cursor : Cursor
  pub diags : List Diagnostic
  pub has_peeked : Bool
  pub peeked_token : Token
  pub in_interpolation : Bool
  pub interp_paren_depth : ℕ
  pub continue_string : Bool

-- `advance`, on what is left of the source
unfoldable pub advance_on : Bytes → Cursor → Cursor
advance_on [] c = c
advance_on (b ∷ bs) c = record c {
  rest = bs;
  pos = c.pos + 1;
  line = if b == b'\n' then u32 (c.line + 1) else c.line;
  column = if b == b'\n' then 1 else u32 (c.column + 1);
}

unfoldable pub advance : Cursor → Cursor
unfolding advance_on
advance c = advance_on c.rest c

abbrev pub is_eof : Cursor → Bool
is_eof c = elim c.rest [ [] ↦ true | _ ∷ _ ↦ false ]

-- `currentPos_ + k < source_.size() && test(source_[currentPos_ + k])`
unfoldable pub looking : ℕ → (ℕ → Bool) → Cursor → Bool
looking k test c = elim (get_elem? c.rest k) [ none ↦ false | some b ↦ test b ]

-- `peek` and `peekNext`: '\0' behind the end
abbrev pub byte_at : ℕ → Cursor → ℕ
byte_at k c = elim (get_elem? c.rest k) [ none ↦ 0 | some b ↦ b ]

abbrev pub peek : Cursor → ℕ
peek = byte_at 0

abbrev pub peek_next : Cursor → ℕ
peek_next = byte_at 1

abbrev pub current_location : Cursor → SourceLocation
current_location c = record { line = c.line; column = c.column; offset = u32 c.pos }

-- Where `makeToken` puts a token that began at offset `start` and ends at the cursor: the line is
-- that of its end. The column is computed in `size_t` and cut to 32 bits.
unfoldable pub token_location : ℕ → Cursor → SourceLocation
token_location start c = record {
  line = c.line;
  column = u32 ((c.column + 2 ^ 64 - (c.pos - start)) % 2 ^ 64);
  offset = u32 start;
}

-- `makeToken` with a text of its own.
unfoldable pub make_token_text : TokenKind → ℕ → Bytes → Cursor → Token
unfolding token_location
make_token_text kind start text c = record {
  kind = kind;
  location = token_location start c;
  text = text;
}

-- The text from `start` up to the cursor: `source_.substr(start, currentPos_ - start)`.
abbrev pub text_from : ℕ → Cursor → Bytes
text_from start c = take (c.pos - start) (drop start c.source)

unfoldable pub make_token : TokenKind → ℕ → Cursor → Token
unfolding make_token_text
make_token kind start c = make_token_text kind start (text_from start c) c

-- `while (currentPos_ < source_.size() && test(source_[currentPos_])) advance();`
unfoldable pub while_on : (ℕ → Bool) → Bytes → Cursor → Cursor
while_on test [] c = c
while_on test (b ∷ bs) c = elim (test b) [ true ↦ while_on test bs (advance c) | false ↦ c ]

unfoldable pub advance_while : (ℕ → Bool) → Cursor → Cursor
unfolding while_on
advance_while test c = while_on test c.rest c

-- A move of the cursor alone, and a report.
abbrev pub move : (Cursor → Cursor) → Lexer → Lexer
move f s = record s { cursor = f s.cursor }

abbrev pub report : SourceLocation → DiagId → Bytes → Lexer → Lexer
report loc id arg s = record s { diags = s.diags ++ record { loc = loc; id = id; arg = arg } ∷ [] }

-- The constructor of `Lexer`.
abbrev pub initial : Bytes → Lexer
initial source = record {
  cursor = record { source = source; rest = source; pos = 0; line = 1; column = 1 };
  diags = [];
  has_peeked = false;
  peeked_token = record {
    kind = TokenKind.eof;
    location = record { line = 1; column = 1; offset = 0 };
    text = [];
  };
  in_interpolation = false;
  interp_paren_depth = 0;
  continue_string = false;
}
