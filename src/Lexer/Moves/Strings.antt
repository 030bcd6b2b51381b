-- ===== src/Lexer/Moves/Strings.antt =====
-- The tokens of `lexString` and `lexStringContinuation`.
use liva_lang.Base.{ℕ, zero, suc, Bool, true, false, ◌==◌, ◌≡◌, refl, arith, length, on_if}
use liva_lang.Lexer.Kinds.{TokenKind, is_eof_kind}
use liva_lang.Lexer.Moves.Defs.{
  Moves, here, more, Moves-trans, advance_while-Moves, skip_if-Moves, Made, make_token-Made,
}
use liva_lang.Lexer.Moves.Literals.{IsSettled, TakesIn}
use liva_lang.Lexer.State.{
  Cursor, Lexer, Token, SourceLocation, advance, looking, current_location, make_token,
}
use liva_lang.Lexer.Strings.{
  Triple, triple_mark, triple_loop, skip_newline, at_crlf, lex_triple, Piece, piece_mark, is_escape,
  lex_unicode_escape, lex_escape, string_loop, open_interpolation, close_string, lex_plain_string,
  at_double, lex_string, continuation_loop, lex_string_continuation,
}

on_triple {ℓ κ} :
    {A : Type ℓ} (P : A → Type κ) (m : Triple) {x y z w : A}
    → P x
    → P y
    → P z
    → P w
    → P (elim m [ Triple.short ↦ x | Triple.closing ↦ y | Triple.escaped ↦ z | Triple.plain ↦ w ])
on_triple P Triple.short a b c d = a
on_triple P Triple.closing a b c d = b
on_triple P Triple.escaped a b c d = c
on_triple P Triple.plain a b c d = d

pub on_piece {ℓ κ} :
    {A : Type ℓ} (P : A → Type κ) (m : Piece) {x y z w v : A}
    → P x
    → P y
    → P z
    → P w
    → P v
    → P (elim m [
      | Piece.closed ↦ x
      | Piece.interpolation ↦ y
      | Piece.escape ↦ z
      | Piece.line_end ↦ w
      | Piece.plain ↦ v
    ])
on_piece P Piece.closed a b c d e = a
on_piece P Piece.interpolation a b c d e = b
on_piece P Piece.escape a b c d e = c
on_piece P Piece.line_end a b c d e = d
on_piece P Piece.plain a b c d e = e

triple_loop-Moves :
    (fuel : ℕ) {b : Cursor} (c : Cursor) → Moves b c → Moves b (triple_loop fuel c).1
unfolding triple_loop
triple_loop-Moves zero c m = m
triple_loop-Moves (suc fuel) {b} c m =
    on_triple (λ (r : Bool × Cursor). Moves b r.1) (triple_mark c) m (more (more (more m)))
      (triple_loop-Moves fuel _ (skip_if-Moves _ (more m))) (triple_loop-Moves fuel _ (more m))

skip_newline-Moves : {b : Cursor} (c : Cursor) → Moves b c → Moves b (skip_newline c)
unfolding skip_newline
skip_newline-Moves {b} c m =
    on_if (Moves b) (looking 0 (λ b. b == b'\n') c) (λ _. more m)
      (λ _. on_if (Moves b) (at_crlf c) (λ _. more (more m)) (λ _. m))

lex_triple-TakesIn :
    (loc : SourceLocation) (s : Lexer)
    → IsSettled s
    → TakesIn s.cursor (lex_triple s.cursor.pos loc (advance s.cursor) s)
unfolding lex_triple
lex_triple-TakesIn loc s k =
    let c = skip_newline (advance (advance (advance s.cursor))) in
    let m = triple_loop-Moves (length c.rest) c (skip_newline-Moves _ (more (more here))) in
    let made = make_token-Made TokenKind.string_literal (Moves-trans (more here) m) here in
    on_if
      (λ (u : Lexer).
        TakesIn s.cursor
          (make_token TokenKind.string_literal s.cursor.pos (triple_loop (length c.rest) c).1, u))
      (triple_loop (length c.rest) c).0
      (λ _. record { made = made; real = refl; moved = m; settled = k })
      (λ _. record { made = made; real = refl; moved = m; settled = k })

-- The cursor moves on, and the state of interpolations stays.
record Stays (c : Cursor) (s t : Lexer) : Type 0 where
  moved : Moves c t.cursor
  settled : IsSettled s → IsSettled t

lex_unicode_escape-Stays :
    {c : Cursor} (s t : Lexer) → Stays c s t → Stays c s (lex_unicode_escape t)
unfolding lex_unicode_escape
lex_unicode_escape-Stays {c} s t m =
    on_if (Stays c s) (looking 0 (λ b. b == b'{') t.cursor)
      (λ _. record {
        moved = skip_if-Moves _ (advance_while-Moves _ (more m.moved));
        settled = m.settled;
      })
      (λ _. record { moved = m.moved; settled = m.settled })

lex_escape-Stays : {c : Cursor} (s t : Lexer) → Stays c s t → Stays c s (lex_escape t)
unfolding lex_escape
lex_escape-Stays {c} s t m =
    let d = advance t.cursor in
    let one = more m.moved in
    on_if (Stays c s) (looking 0 (λ b. b == b'u') d)
      (λ _. lex_unicode_escape-Stays s _ (record { moved = more one; settled = m.settled }))
      (λ _.
        on_if (Stays c s) (looking 0 is_escape d)
          (λ _. record { moved = more one; settled = m.settled })
          (λ _.
            on_if (Stays c s) (looking 0 (λ _. true) d)
              (λ _. record { moved = more one; settled = m.settled })
              (λ _. record { moved = one; settled = m.settled })))

string_loop-Stays :
    (fuel : ℕ) (loc : SourceLocation) {c : Cursor} (s t : Lexer)
    → Stays c s t
    → Stays c s (string_loop fuel loc t).1
unfolding string_loop
string_loop-Stays zero loc s t m = m
string_loop-Stays (suc fuel) loc {c} s t m =
    on_piece (λ (r : Bool × Lexer). Stays c s r.1) (piece_mark t.cursor) m m
      (string_loop-Stays fuel loc s _ (lex_escape-Stays s t m))
      (record { moved = m.moved; settled = m.settled })
      (string_loop-Stays fuel loc s _ (record { moved = more m.moved; settled = m.settled }))

close_string-Stays :
    (loc : SourceLocation) {c : Cursor} (s t : Lexer) → Stays c s t → Stays c s (close_string loc t)
unfolding close_string
close_string-Stays loc {c} s t m =
    on_if (Stays c s) (looking 0 (λ _. true) t.cursor)
      (λ _. record { moved = more m.moved; settled = m.settled })
      (λ _. record { moved = m.moved; settled = m.settled })

open_interpolation-Settled : (s : Lexer) → IsSettled s → IsSettled (open_interpolation s)
open_interpolation-Settled s k = record {
  unread = k.unread;
  continued = k.continued;
  opened = λ _. omega arith;
}

lex_plain_string-TakesIn :
    (loc : SourceLocation) (s : Lexer)
    → IsSettled s
    → TakesIn s.cursor (lex_plain_string s.cursor.pos loc (record s { cursor = advance s.cursor }))
unfolding lex_plain_string
lex_plain_string-TakesIn loc s k =
    let begun = record s { cursor = advance s.cursor } in
    let n = length begun.cursor.rest in
    let t = (string_loop n loc begun).1 in
    let m =
      string_loop-Stays n loc {c = begun.cursor} s begun
        (record { moved = here; settled = λ h. h }) in
    let u = close_string-Stays loc s t m in
    on_if (TakesIn s.cursor) (string_loop n loc begun).0
      (λ _. record {
        real = refl;
        made = make_token-Made _ (Moves-trans (more here) m.moved) (more (more here));
        moved = more (more m.moved);
        settled = open_interpolation-Settled t (m.settled k);
      })
      (λ _. record {
        real = refl;
        made = make_token-Made _ (Moves-trans (more here) u.moved) here;
        moved = u.moved;
        settled = u.settled k;
      })

pub lex_string-TakesIn : (s : Lexer) → IsSettled s → TakesIn s.cursor (lex_string s)
unfolding lex_string
lex_string-TakesIn s k =
    on_if (TakesIn s.cursor) (at_double (advance s.cursor))
      (λ _. lex_triple-TakesIn (current_location s.cursor) s k)
      (λ _. lex_plain_string-TakesIn (current_location s.cursor) s k)

continuation_loop-Moves :
    (fuel : ℕ) {b : Cursor} (c : Cursor) → Moves b c → Moves b (continuation_loop fuel c).1
unfolding continuation_loop
continuation_loop-Moves zero c m = m
continuation_loop-Moves (suc fuel) {b} c m =
    on_piece (λ (r : Bool × Cursor). Moves b r.1) (piece_mark c) m m
      (continuation_loop-Moves fuel _ (skip_if-Moves _ (more m))) m
      (continuation_loop-Moves fuel _ (more m))

-- A continuation may be empty. It leaves no string to be continued, whatever was before.
pub record Continues (c : Cursor) (r : Token × Lexer) : Type 0 where
  pub made : Made c r.0 r.1.cursor
  pub real : is_eof_kind r.0.kind ≡ false
  pub moved : Moves c r.1.cursor
  pub settled : IsSettled r.1

pub lex_string_continuation-Continues :
    (s : Lexer)
    → s.has_peeked ≡ false
    → s.in_interpolation ≡ false
    → Continues s.cursor (lex_string_continuation s)
unfolding lex_string_continuation
lex_string_continuation-Continues s u h =
    let n = length s.cursor.rest in
    let m = continuation_loop-Moves n s.cursor here in
    on_if (Continues s.cursor) (continuation_loop n s.cursor).0
      (λ _. record {
        real = refl;
        made = make_token-Made _ m (more (more here));
        moved = more (more m);
        settled = record { unread = u; continued = refl; opened = λ _. omega arith };
      })
      (λ _.
        let e = skip_if-Moves (λ b. b == b'"') m in
        record {
          real = refl;
          made = make_token-Made _ e here;
          moved = e;
          settled = record { unread = u; continued = refl; opened = λ i. absurd (cc (h, i)) };
        })
