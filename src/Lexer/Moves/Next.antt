-- ===== src/Lexer/Moves/Next.antt =====
-- The tokens of `nextToken`, and the invariant of the lexer between two calls.
use liva_lang.Base.{
  ℕ, zero, suc, ◌+◌, ◌-◌, Bool, true, false, List, [], ◌∷◌, some, ◌==◌, ◌≡◌, refl, inl, inr, arith,
  Bytes, if◌then◌else◌, length, on_if, Bool-cases, Option-cases,
}
use mathlib.Core.Option.{some-injective}
use mathlib.Core.Path.{subst}
use liva_lang.Lexer.Blank.{
  blank_mark, blank_loop, skip_line_comment, skip_block_comment, block_loop, skip_whitespace,
}
use liva_lang.Lexer.Kinds.{TokenKind, is_eof_kind}
use liva_lang.Lexer.Literals.{is_ident_start, is_digit, is_lifetime}
use liva_lang.Lexer.Moves.Blank.{on_blank}
use liva_lang.Lexer.Moves.Defs.{Moves, here, more, Moves-trans, Made, make_token-Made}
use liva_lang.Lexer.Moves.Literals.{
  IsSettled, Takes, TakesIn, lex_identifier_or_keyword-Takes, lex_number-Takes,
  lex_doc_comment-Takes, lex_lifetime-Takes, lex_char-TakesIn,
}
use liva_lang.Lexer.Moves.Strings.{lex_string-TakesIn, lex_string_continuation-Continues}
use liva_lang.Lexer.Next.{
  Operator, operators, find_operator, match_longer, match_dots, Outcome, done, again, with_cursor,
  emit, close_paren, open_paren, lex_operator, dispatch, at_doc_comment,
}
use liva_lang.Lexer.State.{make_token, Cursor, Lexer, Token, advance, peek, move}

-- The fields that skipping blanks leaves alone.
record Modes (s t : Lexer) : Type 0 where
  peeked : t.has_peeked ≡ s.has_peeked
  settled : IsSettled s → IsSettled t

skip_block_comment-Modes : (s : Lexer) → Modes s (skip_block_comment s).0
unfolding skip_block_comment
skip_block_comment-Modes s =
    let c = advance (advance s.cursor) in
    on_if (λ (r : Lexer × Bool). Modes s r.0) ((block_loop (length c.rest) 1 c).0 == 0)
      (λ _. record { peeked = refl; settled = λ k. k })
      (λ _. record { peeked = refl; settled = λ k. k })

Modes-trans : {s t u : Lexer} → Modes s t → Modes t u → Modes s u
Modes-trans m n = record {
  peeked = cc (m.peeked, n.peeked);
  settled = λ k. n.settled (m.settled k);
}

blank_loop-Modes : (fuel : ℕ) (s : Lexer) → Modes s (blank_loop fuel s)
unfolding blank_loop
blank_loop-Modes zero s = record { peeked = refl; settled = λ k. k }
blank_loop-Modes (suc fuel) s =
    let same = skip_block_comment-Modes s in
    let later = Modes-trans same (blank_loop-Modes fuel (skip_block_comment s).0) in
    on_blank (Modes s) (blank_mark s.cursor)
      (let m = blank_loop-Modes fuel (move advance s) in
        record { peeked = m.peeked; settled = m.settled })
      (let m = blank_loop-Modes fuel (move skip_line_comment s) in
        record { peeked = m.peeked; settled = m.settled })
      (on_if (Modes s) (skip_block_comment s).1 (λ _. later) (λ _. same))
      (record { peeked = refl; settled = λ k. k })

pub skip_whitespace-peeked : (s : Lexer) → (skip_whitespace s).has_peeked ≡ s.has_peeked
unfolding skip_whitespace
skip_whitespace-peeked s = (blank_loop-Modes (length s.cursor.rest) s).peeked

pub skip_whitespace-Settled : (s : Lexer) → IsSettled s → IsSettled (skip_whitespace s)
unfolding skip_whitespace
skip_whitespace-Settled s = (blank_loop-Modes (length s.cursor.rest) s).settled

-- A token found from `c` on: it begins at a cursor `begin` that `c` moves to.
pub record Lexes (c : Cursor) (t : Token) (d : Cursor) : Type 0 where
  pub begin : Cursor
  pub lead : Moves c begin
  pub made : Made begin t d

-- An outcome that has read the byte at the cursor `c`, and leaves the lexer settled.
abbrev pub Reads : Cursor → Outcome → Type 0
Reads c (done (t, s)) =
    Lexes c t s.cursor × Moves (advance c) s.cursor × IsSettled s × (is_eof_kind t.kind ≡ false)
Reads c (again s) = Moves (advance c) s.cursor × IsSettled s

Reads-Takes :
    (s : Lexer) (r : Token × Cursor)
    → IsSettled s
    → Takes s.cursor r
    → Reads s.cursor (with_cursor s r)
Reads-Takes s r k h = (record { begin = s.cursor; lead = here; made = h.made }, h.moved, k, h.real)

Reads-TakesIn : (c : Cursor) (r : Token × Lexer) → TakesIn c r → Reads c (done r)
Reads-TakesIn c r h = (record { begin = c; lead = here; made = h.made }, h.moved, h.settled, h.real)

Reads-emit :
    (c : Cursor) (s : Lexer) (r : TokenKind × Cursor)
    → IsSettled s
    → is_eof_kind r.0 ≡ false
    → Moves (advance c) r.1
    → Reads c (emit s c.pos r)
unfolding make_token
Reads-emit c s r k real m = (
  record { begin = c; lead = here; made = make_token-Made r.0 (Moves-trans (more here) m) here },
  m,
  k,
  real,
)

match_longer-Moves :
    (l : List (ℕ × TokenKind)) (alone : TokenKind) (c : Cursor) → Moves c (match_longer l alone c).1
unfolding match_longer
match_longer-Moves [] alone c = here
match_longer-Moves ((b, k) ∷ l) alone c =
    on_if (λ (r : TokenKind × Cursor). Moves c r.1) (peek c == b) (λ _. more here)
      (λ _. match_longer-Moves l alone c)

match_dots-Moves : (c : Cursor) → Moves c (match_dots c).1
unfolding match_dots
match_dots-Moves c =
    let P = λ (r : TokenKind × Cursor). Moves c r.1 in
    on_if P (peek c == b'.')
      (λ _.
        on_if P (peek (advance c) == b'.') (λ _. more (more here))
          (λ _. on_if P (peek (advance c) == b'=') (λ _. more (more here)) (λ _. more here)))
      (λ _. here)

match_dots-real : (c : Cursor) → is_eof_kind (match_dots c).0 ≡ false
unfolding match_dots
match_dots-real c =
    let P = λ (r : TokenKind × Cursor). is_eof_kind r.0 ≡ false in
    on_if P (peek c == b'.')
      (λ _.
        on_if P (peek (advance c) == b'.') (λ _. refl)
          (λ _. on_if P (peek (advance c) == b'=') (λ _. refl) (λ _. refl)))
      (λ _. refl)

abbrev AreReal : List (ℕ × TokenKind) → Type 0
AreReal [] = Unit
AreReal ((b, k) ∷ l) = (is_eof_kind k ≡ false) × AreReal l

abbrev AllReal : List Operator → Type 0
AllReal [] = Unit
AllReal (o ∷ os) = (is_eof_kind o.alone ≡ false) × AreReal o.longer × AllReal os

operators-AllReal : AllReal operators
unfolding operators
operators-AllReal = (
  refl,
  tt,
  (
    refl,
    tt,
    (
      refl,
      tt,
      (
        refl,
        tt,
        (
          refl,
          tt,
          (
            refl,
            tt,
            (
              refl,
              tt,
              (
                refl,
                tt,
                (
                  refl,
                  (refl, (refl, tt)),
                  (
                    refl,
                    tt,
                    (
                      refl,
                      tt,
                      (
                        refl,
                        (refl, tt),
                        (
                          refl,
                          (refl, tt),
                          (
                            refl,
                            (refl, (refl, tt)),
                            (
                              refl,
                              (refl, tt),
                              (
                                refl,
                                (refl, tt),
                                (
                                  refl,
                                  (refl, tt),
                                  (
                                    refl,
                                    (refl, (refl, tt)),
                                    (
                                      refl,
                                      (refl, tt),
                                      (
                                        refl,
                                        (refl, (refl, tt)),
                                        (
                                          refl,
                                          (refl, (refl, tt)),
                                          (refl, (refl, tt), (refl, (refl, tt), (refl, tt, tt))),
                                        ),
                                      ),
                                    ),
                                  ),
                                ),
                              ),
                            ),
                          ),
                        ),
                      ),
                    ),
                  ),
                ),
              ),
            ),
          ),
        ),
      ),
    ),
  ),
)

match_longer-real :
    (l : List (ℕ × TokenKind)) (alone : TokenKind) (c : Cursor)
    → is_eof_kind alone ≡ false
    → AreReal l
    → is_eof_kind (match_longer l alone c).0 ≡ false
unfolding match_longer
match_longer-real [] alone c h r = h
match_longer-real ((b, k) ∷ l) alone c h r =
    on_if (λ (r : TokenKind × Cursor). is_eof_kind r.0 ≡ false) (peek c == b) (λ _. r.0)
      (λ _. match_longer-real l alone c h r.1)

find_operator-real :
    (os : List Operator) (b : ℕ) {o : Operator} (c : Cursor)
    → AllReal os
    → find_operator os b ≡ some o
    → is_eof_kind (match_longer o.longer o.alone c).0 ≡ false
unfolding find_operator
find_operator-real [] b c h e = absurd (cc)
find_operator-real (p ∷ os) b {o} c h e = elim (Bool-cases (p.byte == b)) [
  | inl same ↦
      let found : some p ≡ some o = rw same at e in
      subst (λ (q : Operator). is_eof_kind (match_longer q.longer q.alone c).0 ≡ false)
        (some-injective p o found) (match_longer-real p.longer p.alone c h.0 h.1)
  | inr other ↦ find_operator-real os b c h.2 (rw other at e)
]

open_paren-Reads :
    (c : Cursor) (s : Lexer)
    → IsSettled s
    → Moves (advance c) s.cursor
    → Reads c (open_paren c.pos s)
unfolding open_paren
open_paren-Reads c s k m =
    let depth = if s.in_interpolation then s.interp_paren_depth + 1 else s.interp_paren_depth in
    Reads-emit c (record s { interp_paren_depth = depth }) (TokenKind.l_paren, s.cursor)
      (record {
        unread = k.unread;
        continued = k.continued;
        opened = λ i. ground (arith, k.opened i);
      })
      refl m

close_paren-Reads :
    (c : Cursor) (s : Lexer)
    → IsSettled s
    → Moves (advance c) s.cursor
    → Reads c (close_paren c.pos s)
unfolding close_paren
close_paren-Reads c s k m =
    on_if (Reads c) s.in_interpolation
      (λ i.
        on_if (Reads c) (s.interp_paren_depth - 1 == 0)
          (λ _.
            let r =
              lex_string_continuation-Continues
                (record s {
                  interp_paren_depth = s.interp_paren_depth - 1;
                  in_interpolation = false;
                  continue_string = true;
                })
                k.unread refl in
            (
              record { begin = s.cursor; lead = Moves-trans (more here) m; made = r.made },
              Moves-trans m r.moved,
              r.settled,
              r.real,
            ))
          (λ n.
            Reads-emit c (record s { interp_paren_depth = s.interp_paren_depth - 1 })
              (TokenKind.r_paren, s.cursor)
              (record { unread = k.unread; continued = k.continued; opened = λ _. ground arith })
              refl m))
      (λ _. Reads-emit c s (TokenKind.r_paren, s.cursor) k refl m)

lex_operator-Reads : (b : ℕ) (s : Lexer) → IsSettled s → Reads s.cursor (lex_operator b s)
unfolding lex_operator
lex_operator-Reads b s k =
    let c = s.cursor in
    let t = move advance s in
    on_if (Reads c) (b == b'(') (λ _. open_paren-Reads c t k here)
      (λ _.
        on_if (Reads c) (b == b')') (λ _. close_paren-Reads c t k here)
          (λ _.
            on_if (Reads c) (b == b'.')
              (λ _.
                Reads-emit c t (match_dots t.cursor) k (match_dots-real t.cursor)
                  (match_dots-Moves t.cursor))
              (λ _. elim (Option-cases (find_operator operators b)) [
                | inl absent ↦ rw absent (here, k)
                | inr (o, found) ↦ rw found (
                    Reads-emit c t (match_longer o.longer o.alone t.cursor) k
                      (find_operator-real operators b t.cursor operators-AllReal found)
                      (match_longer-Moves o.longer o.alone t.cursor))
              ])))

pub dispatch-Reads :
    (b : ℕ) (s : Lexer) {bs : Bytes}
    → s.cursor.rest ≡ b ∷ bs
    → IsSettled s
    → Reads s.cursor (dispatch b s)
unfolding dispatch
dispatch-Reads b s e k =
    let R = Reads s.cursor in
    on_if R (at_doc_comment b s.cursor) (λ _. Reads-Takes s _ k (lex_doc_comment-Takes s.cursor))
      (λ _.
        on_if R (is_ident_start b)
          (λ h. Reads-Takes s _ k (lex_identifier_or_keyword-Takes s.cursor e h))
          (λ _.
            on_if R (is_digit b) (λ h. Reads-Takes s _ k (lex_number-Takes s.cursor e h))
              (λ _.
                on_if R s.continue_string (λ h. absurd (cc (h, k.continued)))
                  (λ _.
                    on_if R (b == b'"') (λ _. Reads-TakesIn s.cursor _ (lex_string-TakesIn s k))
                      (λ _.
                        on_if R (b == b'\'')
                          (λ _.
                            on_if R (is_lifetime s.cursor)
                              (λ _. Reads-Takes s _ k (lex_lifetime-Takes s.cursor))
                              (λ _. Reads-TakesIn s.cursor _ (lex_char-TakesIn s k)))
                          (λ _. lex_operator-Reads b s k))))))
