-- ===== src/Lexer/Tests.antt =====
-- Runs of the lexer on small sources.
use liva_lang.Base.{
  true, if◌then◌else◌, ltb, ◌++◌, ℕ, List, [], ◌∷◌, map, Option, none, some, ◌≡◌, refl, ◌↔◌, Bytes,
  codes, arith, ◌<◌, ◌^◌, length,
}
use liva_lang.Lexer.Kinds.{
  TokenKind, lookup_keyword, get_token_spelling, is_keyword, lookup_keyword_iff,
}
use liva_lang.Lexer.Blank.{skip_whitespace}
use liva_lang.Lexer.Stops.{starts_token, skip_whitespace-token}
use liva_lang.Lexer.Lookahead.{ahead, peek_token-next_token, restore_state-save_state}
use liva_lang.Lexer.Next.{lex_all, next_token, peek_token, save_state, restore_state}
use liva_lang.Lexer.State.{Token, SourceLocation, Lexer, DiagId, initial, advance}
use liva_lang.Base.Decimal.{pos, digits}
use liva_lang.Lexer.Values.{get_string_value, get_integer_value}
use liva_lang.Lexer.Values.Laws.{
  literal, zeros, get_string_value-literal, get_integer_value-decimal,
}
use liva_lang.Lexer.Progress.{Ends}
use liva_lang.Lexer.Tokens.{
  IsIn, IsReady, initial-IsReady, next_token-IsReady, IsStream, AllIn, lex_all-LexesAll,
}

abbrev kinds : Option (List Token × Lexer) → List TokenKind
kinds none = []
kinds (some (ts, _)) = map (λ t. t.kind) ts

abbrev texts : Option (List Token × Lexer) → List Bytes
texts none = []
texts (some (ts, _)) = map (λ t. t.text) ts

abbrev lines : Option (List Token × Lexer) → List (ℕ × ℕ)
lines none = []
lines (some (ts, _)) = map (λ t. (t.location.line, t.location.column)) ts

abbrev reports : Option (List Token × Lexer) → List DiagId
reports none = []
reports (some (_, s)) = map (λ d. d.id) s.diags

abbrev program : Bytes
program = codes "let x1 = 0x1f; // c\n a ..= 'b"

run-kinds :
    kinds (lex_all (initial program))
    ≡ TokenKind.kw_let ∷ TokenKind.identifier ∷ TokenKind.equal ∷ TokenKind.integer_literal
      ∷ TokenKind.semicolon ∷ TokenKind.identifier ∷ TokenKind.dotdotequal
      ∷ TokenKind.lifetime_literal ∷ TokenKind.eof ∷ []
unfolding lex_all codes advance
run-kinds = refl

run-texts :
    texts (lex_all (initial (codes "\"a\\(b)c\" 1.5e3")))
    ≡ codes "\"a" ∷ codes "b" ∷ codes "c\"" ∷ codes "1.5e3" ∷ [] ∷ []
unfolding lex_all codes advance
run-texts = refl

run-lines : lines (lex_all (initial (codes "a\n  b"))) ≡ (1, 1) ∷ (2, 3) ∷ (2, 4) ∷ []
unfolding lex_all codes advance
run-lines = refl

run-reports :
    reports (lex_all (initial (codes "/* x"))) ≡ DiagId.err_unterminated_block_comment ∷ []
unfolding lex_all codes advance
run-reports = refl

program-small : length program < 2 ^ 64
unfolding codes
program-small = omega arith

lex_all-LexesAll_example :
    (ts : List Token) × (u : Lexer) × (lex_all (initial program) ≡ some (ts, u))
    × IsStream ts
    × AllIn program 0 ts
    × (u.cursor.rest ≡ [])
lex_all-LexesAll_example = lex_all-LexesAll program program-small

next_token-IsReady_example :
    (t : Token) × (u : Lexer) × (next_token (initial program) ≡ some (t, u))
    × IsIn program 0 u.cursor.pos t
    × IsReady program u
    × Ends (initial program).cursor t u.cursor
next_token-IsReady_example =
    next_token-IsReady (initial program) program-small (initial-IsReady program)

lookup_keyword_iff_example :
    (lookup_keyword (codes "while") ≡ TokenKind.kw_while)
    ↔ (codes "while" ≡ get_token_spelling TokenKind.kw_while)
unfolding is_keyword
lookup_keyword_iff_example = lookup_keyword_iff (codes "while") TokenKind.kw_while refl

peek_token-next_token_example :
    (t : Token) × (u : Lexer) × (next_token (initial program) ≡ some (t, u))
    × (peek_token (initial program) ≡ some (t, ahead t u))
    × (peek_token (ahead t u) ≡ some (t, ahead t u))
    × (next_token (ahead t u) ≡ some (t, record u { peeked_token = t }))
peek_token-next_token_example =
    peek_token-next_token (initial program) program-small (initial-IsReady program)

-- The lexer behind an unexpected byte, which it reports.
abbrev broken : Bytes
broken = codes "` x"

abbrev behind : Option (Token × Lexer) → Lexer → Lexer
behind none s = s
behind (some (_, u)) s = u

abbrev tried : Lexer
tried = behind (next_token (initial broken)) (initial broken)

tried-source : tried.cursor.source ≡ broken
unfolding next_token codes advance
tried-source = refl

restore_state-save_state_example :
    restore_state (save_state (initial broken)) tried
    ≡ record (initial broken) { diags = tried.diags }
restore_state-save_state_example =
    restore_state-save_state (initial broken) tried (initial-IsReady broken) tried-source

abbrev start : SourceLocation
start = record { line = 1; column = 1; offset = 0 }

get_string_value-literal_example :
    get_string_value (record {
      kind = TokenKind.string_literal;
      location = start;
      text = b'"' ∷ (literal (codes "a\"\\\n\\u{") ++ b'"' ∷ []);
    })
    ≡ codes "a\"\\\n\\u{"
get_string_value-literal_example = get_string_value-literal (codes "a\"\\\n\\u{") start

get_integer_value-decimal_example :
    get_integer_value (record {
      kind = TokenKind.integer_literal;
      location = start;
      text = zeros 2 ++ digits 9223372036854775807;
    })
    ≡ (if ltb 9223372036854775807 (2 ^ 63) then pos 9223372036854775807 else pos 0)
get_integer_value-decimal_example = get_integer_value-decimal 2 9223372036854775807 start

-- Lexed as one literal, `1_000` has the value 1.
run-underscore :
    (texts (lex_all (initial (codes "1_000"))) ≡ codes "1_000" ∷ [] ∷ [])
    × (get_integer_value
          (record { kind = TokenKind.integer_literal; location = start; text = codes "1_000" })
        ≡ pos 1)
unfolding lex_all codes advance get_integer_value
run-underscore = (refl, refl)

skip_whitespace-token_example :
    starts_token (skip_whitespace (initial (codes " // a\n/* /* */ b"))).cursor.rest ≡ true
skip_whitespace-token_example = skip_whitespace-token (initial (codes " // a\n/* /* */ b"))
