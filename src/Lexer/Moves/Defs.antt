-- ===== src/Lexer/Moves/Defs.antt =====
-- The relation `Moves`, the moves of the primitives, and `Made`.
use liva_lang.Base.{ℕ, Bool, true, false, [], ◌∷◌, ◌≡◌, ◌⊎◌, inr, refl, Bytes, on_if}
use liva_lang.Lexer.Kinds.{TokenKind}
use liva_lang.Lexer.State.{
  Cursor, Token, advance, while_on, advance_while, looking, token_location, text_from, make_token,
}
use liva_lang.Lexer.Literals.{skip_if}

-- `d` is `c` after some calls of `advance`.
pub data Moves (c : Cursor) : Cursor → Type 0 where
  here : Moves c c
  more : {d : Cursor} → Moves c d → Moves c (advance d)

pub Moves-trans : {c d e : Cursor} → Moves c d → Moves d e → Moves c e
Moves-trans m here = m
Moves-trans m (more n) = more (Moves-trans m n)

while_on-Moves :
    (test : ℕ → Bool) (bs : Bytes) {c d : Cursor} → Moves c d → Moves c (while_on test bs d)
unfolding while_on
while_on-Moves test [] m = m
while_on-Moves test (b ∷ bs) {c} {d} m =
    elim (test b) as (λ t. Moves c (elim t [ true ↦ while_on test bs (advance d) | false ↦ d ])) [
      | true ↦ while_on-Moves test bs (more m)
      | false ↦ m
    ]

pub advance_while-Moves :
    (test : ℕ → Bool) {c d : Cursor} → Moves c d → Moves c (advance_while test d)
unfolding advance_while
advance_while-Moves test {d = d} m = while_on-Moves test d.rest m

-- A loop whose test holds at the cursor moves past that byte.
pub advance_while-Moves-advance :
    (test : ℕ → Bool) (c : Cursor) {b : ℕ} {bs : Bytes}
    → c.rest ≡ b ∷ bs
    → test b ≡ true
    → Moves (advance c) (advance_while test c)
unfolding advance_while while_on
advance_while-Moves-advance test c {bs = bs} e h = rw (e, while_on, h) (while_on-Moves test bs here)

pub skip_if-Moves : (test : ℕ → Bool) {c d : Cursor} → Moves c d → Moves c (skip_if test d)
unfolding skip_if
skip_if-Moves test {c} {d} m = on_if (Moves c) (looking 0 test d) (λ _. more m) (λ _. m)

-- A token that begins at `c` and leaves the cursor at `d`. It was made at a cursor `last` between
-- them, and its text is the source from `c` to `last`, but for documentation comments.
pub record Made (c : Cursor) (t : Token) (d : Cursor) : Type 0 where
  pub last : Cursor
  pub first_part : Moves c last
  pub second_part : Moves last d
  pub location : t.location ≡ token_location c.pos last
  pub text : (t.kind ≡ TokenKind.doc_comment) ⊎ (t.text ≡ text_from c.pos last)

pub make_token-Made :
    (kind : TokenKind) {c d e : Cursor} → Moves c d → Moves d e → Made c (make_token kind c.pos d) e
unfolding make_token
make_token-Made kind {d = d} m n = record {
  last = d;
  first_part = m;
  second_part = n;
  location = refl;
  text = inr refl;
}
