-- ===== src/Lexer/Progress.antt =====
-- `nextToken` and `lexAll` always answer: every call reads a byte or finds the end of the input.
use liva_lang.Base.{
  ℕ, zero, suc, ◌≤◌, ◌<◌, ◌^◌, true, false, [], ◌∷◌, some, ◌≡◌, refl, ◌∙◌, ◌⊎◌, inl, inr, arith,
  Bytes, if_false, length,
}
use native.Mathlib.Nat.{sub_self}
use liva_lang.Lexer.Kinds.{TokenKind, is_eof_kind}
use liva_lang.Lexer.Moves.Next.{Lexes, Reads, skip_whitespace-Settled, dispatch-Reads}
use liva_lang.Lexer.Moves.Blank.{skip_whitespace-Moves}
use liva_lang.Lexer.Moves.Literals.{IsSettled}
use liva_lang.Lexer.Moves.{Moves, here, more, Moves-trans, Made}
use liva_lang.Lexer.Next.{Outcome, done, again, lex_at, dispatch, next_with}
use liva_lang.Lexer.Blank.{skip_whitespace}
use liva_lang.Lexer.State.{
  Cursor, Lexer, Token, advance, advance_on, token_location, current_location,
}

pub length-advance : (c : Cursor) → length (advance c).rest ≤ length c.rest
unfolding advance
length-advance c = length-advance_on c.rest c refl
  where
    length-advance_on :
        (bs : Bytes) (d : Cursor) → d.rest ≡ bs → length (advance_on bs d).rest ≤ length bs
    length-advance_on [] d e = rw e (omega arith)
    length-advance_on (b ∷ bs) d e = omega arith

length-advance_lt :
    (c : Cursor) {b : ℕ} {bs : Bytes} → c.rest ≡ b ∷ bs → length (advance c).rest < length c.rest
unfolding advance
length-advance_lt c e = rw e (omega arith)

pub length-Moves : {c d : Cursor} → Moves c d → length d.rest ≤ length c.rest
length-Moves here = omega arith
length-Moves (more {d} m) = omega (arith, length-Moves m, length-advance d)

-- The token is the end of the input, which is then read, or there is less to read behind it.
abbrev pub Ends : Cursor → Token → Cursor → Type 0
Ends c t d =
    ((is_eof_kind t.kind ≡ true) × (d.rest ≡ []))
    ⊎ ((is_eof_kind t.kind ≡ false) × (length d.rest < length c.rest))

End-later : (c b d : Cursor) (t : Token) → Ends b t d → length b.rest < length c.rest → Ends c t d
End-later c b d t (inl e) h = inl e
End-later c b d t (inr (e, l)) h = inr (e, omega arith)

-- What a call of `nextToken` gives where no token was read ahead: a token found from the cursor
-- on, and either the end of the input or a shorter rest.
pub record Advances (s : Lexer) (t : Token) (u : Lexer) : Type 0 where
  pub lexes : Lexes s.cursor t u.cursor
  pub settled : IsSettled u
  pub kind_or_end : Ends s.cursor t u.cursor

-- What one round of `nextToken` gives: a token as above, or a byte less and another round.
abbrev Round : Lexer → Outcome → Type 0
Round s (done (t, u)) = Advances s t u
Round s (again u) =
    Moves s.cursor u.cursor × IsSettled u × (length u.cursor.rest < length s.cursor.rest)

Round-dispatch :
    (s t : Lexer) {b : ℕ} {bs : Bytes} (o : Outcome)
    → Moves s.cursor t.cursor
    → t.cursor.rest ≡ b ∷ bs
    → Reads t.cursor o
    → Round s o
Round-dispatch s t (done (k, u)) m e (l, moved, settled, real) = record {
  lexes = record { begin = l.begin; lead = Moves-trans m l.lead; made = l.made };
  settled = settled;
  kind_or_end =
      inr (real, omega (arith, length-Moves moved, length-Moves m, length-advance_lt t.cursor e));
}
Round-dispatch s t (again u) m e (moved, settled) = (
  Moves-trans m (Moves-trans (more here) moved),
  settled,
  omega (arith, length-Moves moved, length-Moves m, length-advance_lt t.cursor e),
)

-- The column is a `uint32_t`.
abbrev pub IsNarrow : Cursor → Type 0
IsNarrow c = c.column < 2 ^ 32

pub advance-IsNarrow : (c : Cursor) → IsNarrow c → IsNarrow (advance c)
unfolding advance
advance-IsNarrow c h = advance_on-IsNarrow c.rest
  where
    advance_on-IsNarrow : (bs : Bytes) → IsNarrow (advance_on bs c)
    advance_on-IsNarrow [] = h
    advance_on-IsNarrow (b ∷ bs) = ground arith

pub Moves-IsNarrow : {c d : Cursor} → Moves c d → IsNarrow c → IsNarrow d
Moves-IsNarrow here h = h
Moves-IsNarrow (more {d} m) h = advance-IsNarrow d (Moves-IsNarrow m h)

-- The end token stands at the end.
abbrev end_token : Cursor → Token
end_token c = record { kind = TokenKind.eof; location = current_location c; text = [] }

end_token-Made : (c : Cursor) → IsNarrow c → Made c (end_token c) c
unfolding token_location
end_token-Made c h = record {
  last = c;
  first_part = here;
  second_part = here;
  location = ground arith;
  text = inr (rw sub_self);
}

lex_at-Round :
    (s t : Lexer) (bs : Bytes)
    → IsNarrow s.cursor
    → Moves s.cursor t.cursor
    → IsSettled t
    → t.cursor.rest ≡ bs
    → Round s (lex_at bs t)
unfolding lex_at
lex_at-Round s t [] n m k e = record {
  lexes = record {
    begin = t.cursor;
    lead = m;
    made = end_token-Made t.cursor (Moves-IsNarrow m n);
  };
  settled = k;
  kind_or_end = inl (refl, e);
}
lex_at-Round s t (b ∷ bs) n m k e = Round-dispatch s t (dispatch b t) m e (dispatch-Reads b t e k)

-- Starting later, a token is found from the earlier cursor on, too.
Advances-later :
    {s t : Lexer} {k : Token} {u : Lexer}
    → Moves s.cursor t.cursor
    → length t.cursor.rest < length s.cursor.rest
    → Advances t k u
    → Advances s k u
Advances-later {s} {t} {k} {u} m h a = record {
  lexes = record { begin = a.lexes.begin; lead = Moves-trans m a.lexes.lead; made = a.lexes.made };
  settled = a.settled;
  kind_or_end = End-later s.cursor t.cursor u.cursor k a.kind_or_end h;
}

-- The answer of `nextToken` at `s`, with this fuel.
abbrev Answer : ℕ → Lexer → Type 0
Answer fuel s = (t : Token) × (u : Lexer) × (next_with fuel s ≡ some (t, u)) × Advances s t u

finish-Round :
    (fuel : ℕ) (s : Lexer) (o : Outcome)
    → length s.cursor.rest < suc fuel
    → IsNarrow s.cursor
    → Round s o
    → ((u : Lexer) → length u.cursor.rest < fuel → IsNarrow u.cursor → IsSettled u → Answer fuel u)
    → (t : Token) × (u : Lexer) × (elim o [ done r ↦ some r | again u ↦ next_with fuel u ]
        ≡ some (t, u))
      × Advances s t u
finish-Round fuel s (done (t, u)) f n r next = (t, u, refl, r)
finish-Round fuel s (again v) f n (m, k, l) next =
    let (t, u, e, a) = next v (omega arith) (Moves-IsNarrow m n) k in
    (t, u, e, Advances-later m l a)

-- With more fuel than bytes left `nextToken` answers.
pub next_with-Answer :
    (fuel : ℕ) (s : Lexer)
    → length s.cursor.rest < fuel
    → IsNarrow s.cursor
    → IsSettled s
    → Answer fuel s
unfolding next_with
next_with-Answer zero s f n k = absurd (omega arith)
next_with-Answer (suc fuel) s f n k =
    let t = skip_whitespace s in
    let round =
      lex_at-Round s t t.cursor.rest n (skip_whitespace-Moves s) (skip_whitespace-Settled s k)
        refl in
    let (x, u, e, a) =
      finish-Round fuel s (lex_at t.cursor.rest t) f n round (next_with-Answer fuel) in
    (x, u, if_false s.has_peeked _ _ k.unread ∙ e, a)
