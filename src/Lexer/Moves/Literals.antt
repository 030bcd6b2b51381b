-- ===== src/Lexer/Moves/Literals.antt =====
-- The tokens of `lexIdentifierOrKeyword`, `lexNumber`, `lexChar`, `lexDocComment` and of lifetimes:
-- each takes at least the byte at the cursor.
use liva_lang.Base.{
  ℕ, ◌≤◌, Bool, true, false, ◌||◌, [], ◌∷◌, ◌==◌, ◌≡◌, refl, Bytes, bytes_eq, on_if, inl, inr,
  arith,
}
use liva_lang.Lexer.Kinds.{TokenKind, is_eof_kind, lookup_keyword, lookup_keyword-real}
use liva_lang.Lexer.Literals.{
  is_digit, is_ident, is_ident_start, at_point, is_e, is_x, is_b, is_o, at_prefix, char_body,
  kind_of_word, word_kind, number_kind, lex_identifier_or_keyword, prefixed, digits_part,
  point_part, exponent_part, lex_decimal, lex_number, lex_char, lex_doc_comment, lex_lifetime,
}
use liva_lang.Lexer.Moves.Defs.{
  Moves, here, more, Moves-trans, advance_while-Moves, advance_while-Moves-advance, skip_if-Moves,
  Made, make_token-Made,
}
use liva_lang.Lexer.State.{
  Cursor, Lexer, Token, advance, advance_while, text_from, looking, make_token,
}

-- A token that takes the byte at the cursor, and the cursor behind it.
pub record Takes (c : Cursor) (r : Token × Cursor) : Type 0 where
  pub made : Made c r.0 r.1
  pub real : is_eof_kind r.0.kind ≡ false
  pub moved : Moves (advance c) r.1

is_ident_of_start : (b : ℕ) → is_ident_start b ≡ true → is_ident b ≡ true
unfolding is_ident_start is_ident
is_ident_of_start b h = ground arith

pub make_token-Takes :
    (kind : TokenKind) {c d : Cursor}
    → is_eof_kind kind ≡ false
    → Moves (advance c) d
    → Takes c (make_token kind c.pos d, d)
unfolding make_token
make_token-Takes kind real m = record {
  real = real;
  made = make_token-Made kind (Moves-trans (more here) m) here;
  moved = m;
}

kind_of_word-real :
    (k : TokenKind) (t : Bytes) → is_eof_kind k ≡ false → is_eof_kind (kind_of_word k t) ≡ false
unfolding kind_of_word
kind_of_word-real TokenKind.kw_true t h = refl
kind_of_word-real TokenKind.kw_false t h = refl
kind_of_word-real k t h =
    on_if (λ k. is_eof_kind k ≡ false) (bytes_eq t (b'_' ∷ [])) (λ _. refl) (λ _. h)

word_kind-real : (t : Bytes) → is_eof_kind (word_kind t) ≡ false
unfolding word_kind
word_kind-real t = kind_of_word-real (lookup_keyword t) t (lookup_keyword-real t)

pub lex_identifier_or_keyword-Takes :
    (c : Cursor) {b : ℕ} {bs : Bytes}
    → c.rest ≡ b ∷ bs
    → is_ident_start b ≡ true
    → Takes c (lex_identifier_or_keyword c)
unfolding lex_identifier_or_keyword
lex_identifier_or_keyword-Takes c {b} e h =
    let m = advance_while-Moves-advance is_ident c e (is_ident_of_start b h) in
    record {
      made = record {
        last = _;
        first_part = Moves-trans (more here) m;
        second_part = here;
        location = refl;
        text = inr refl;
      };
      real = word_kind-real (text_from c.pos (advance_while is_ident c));
      moved = m;
    }

prefixed-Takes : (test : ℕ → Bool) (c : Cursor) → Takes c (prefixed test c)
prefixed-Takes test c =
    make_token-Takes TokenKind.integer_literal refl (advance_while-Moves _ (more here))

point_part-Moves : {b : Cursor} (c : Cursor) → Moves b c → Moves b (point_part c).1
unfolding point_part
point_part-Moves {b} c m =
    on_if (λ (r : Bool × Cursor). Moves b r.1) (at_point c)
      (λ _. advance_while-Moves (λ b. is_digit b || b == b'_') (more m)) (λ _. m)

exponent_part-Moves : {b : Cursor} (c : Cursor) → Moves b c → Moves b (exponent_part c).1
unfolding exponent_part
exponent_part-Moves {b} c m =
    on_if (λ (r : Bool × Cursor). Moves b r.1) (looking 0 is_e c)
      (λ _. advance_while-Moves is_digit (skip_if-Moves (λ b. b == b'+' || b == b'-') (more m)))
      (λ _. m)

number_kind-real : (f : Bool) → is_eof_kind (number_kind f) ≡ false
number_kind-real true = refl
number_kind-real false = refl

lex_decimal-Takes :
    (c : Cursor) {b : ℕ} {bs : Bytes}
    → c.rest ≡ b ∷ bs
    → is_digit b ≡ true
    → Takes c (lex_decimal c)
unfolding lex_decimal digits_part
lex_decimal-Takes c {b} e h =
    make_token-Takes _ (number_kind-real _)
      (exponent_part-Moves _ (point_part-Moves _ (advance_while-Moves-advance _ c e (rw h))))

pub lex_number-Takes :
    (c : Cursor) {b : ℕ} {bs : Bytes} → c.rest ≡ b ∷ bs → is_digit b ≡ true → Takes c (lex_number c)
unfolding lex_number
lex_number-Takes c e h =
    on_if (Takes c) (at_prefix is_x c) (λ _. prefixed-Takes _ c)
      (λ _.
        on_if (Takes c) (at_prefix is_b c) (λ _. prefixed-Takes _ c)
          (λ _.
            on_if (Takes c) (at_prefix is_o c) (λ _. prefixed-Takes _ c)
              (λ _. lex_decimal-Takes c e h)))

pub lex_doc_comment-Takes : (c : Cursor) → Takes c (lex_doc_comment c)
unfolding lex_doc_comment
lex_doc_comment-Takes c =
    let m = advance_while-Moves _ (skip_if-Moves _ (more (more here))) in
    record {
      made = record {
        last = _;
        first_part = Moves-trans (more here) m;
        second_part = here;
        location = refl;
        text = inl refl;
      };
      real = refl;
      moved = m;
    }

pub lex_lifetime-Takes : (c : Cursor) → Takes c (lex_lifetime c)
unfolding lex_lifetime
lex_lifetime-Takes c = make_token-Takes _ refl (advance_while-Moves is_ident here)

-- The interpolation state inside `nextToken`: no token was read ahead, no string is to be continued, and inside an
-- interpolation at least its own parenthesis is open.
pub record Settled (has_peeked continue_string in_interpolation : Bool) (depth : ℕ) : Type 0 where
  pub unread : has_peeked ≡ false
  pub continued : continue_string ≡ false
  pub opened : in_interpolation ≡ true → 1 ≤ depth

abbrev pub IsSettled : Lexer → Type 0
IsSettled s = Settled s.has_peeked s.continue_string s.in_interpolation s.interp_paren_depth

-- The same for a function that returns the lexer.
pub record TakesIn (c : Cursor) (r : Token × Lexer) : Type 0 where
  pub made : Made c r.0 r.1.cursor
  pub real : is_eof_kind r.0.kind ≡ false
  pub moved : Moves (advance c) r.1.cursor
  pub settled : IsSettled r.1

pub TakesIn-Takes :
    {c : Cursor} {t : Token} (s : Lexer) → IsSettled s → Takes c (t, s.cursor) → TakesIn c (t, s)
TakesIn-Takes s k h = record { made = h.made; real = h.real; moved = h.moved; settled = k }

char_body-Moves : (c : Cursor) → Moves c (char_body c)
unfolding char_body
char_body-Moves c =
    on_if (Moves c) (looking 0 (λ b. b == b'\\') c) (λ _. skip_if-Moves _ (more here))
      (λ _. skip_if-Moves _ here)

pub lex_char-TakesIn : (s : Lexer) → IsSettled s → TakesIn s.cursor (lex_char s)
unfolding lex_char
lex_char-TakesIn s k =
    let begun = advance s.cursor in
    on_if (TakesIn s.cursor) (looking 0 (λ b. b == b'\'') begun)
      (λ _. TakesIn-Takes _ k (make_token-Takes TokenKind.char_literal refl (more here)))
      (λ _.
        TakesIn-Takes _ k
          (make_token-Takes TokenKind.char_literal refl (skip_if-Moves _ (char_body-Moves begun))))
