-- ===== src/Lexer/Lookahead.antt =====
-- Looking ahead: `peekToken`, and going back with `saveState` and `restoreState`.
use liva_lang.Base.{
  ◌<◌, ◌^◌, Bool, true, false, List, Option, none, some, ◌≡◌, refl, sym, ap, ◌∙◌, Bytes, length,
  drop, drop-append, if_false,
}
use liva_lang.Lexer.Next.{next_with, next_token, peek_token, save_state, restore_state}
use liva_lang.Lexer.State.{Diagnostic, Lexer, Token}
use liva_lang.Lexer.Tokens.{IsReady, next_token-IsReady}

-- The lexer `u` with `t` read ahead.
abbrev pub ahead : Token → Lexer → Lexer
ahead t u = record u { peeked_token = t; has_peeked = true }

abbrev read_ahead : Option (Token × Lexer) → Option (Token × Lexer)
read_ahead none = none
read_ahead (some (t, u)) = some (t, ahead t u)

peek_token-fresh :
    (s u : Lexer) (t : Token)
    → s.has_peeked ≡ false
    → next_token s ≡ some (t, u)
    → peek_token s ≡ some (t, ahead t u)
unfolding peek_token
peek_token-fresh s u t h e =
    if_false s.has_peeked (some (s.peeked_token, s)) (read_ahead (next_token s)) h ∙ ap read_ahead e

next_token-ahead :
    (u : Lexer) (t : Token)
    → u.has_peeked ≡ false
    → next_token (ahead t u) ≡ some (t, record u { peeked_token = t })
unfolding next_token next_with
next_token-ahead u t h =
    ap (λ (b : Bool). some (t, record u { peeked_token = t; has_peeked = b })) (sym h)

-- Between two tokens of a source of less than 2^64 bytes, `peekToken` answers the token that
-- `nextToken` would; a second `peekToken` answers it again and changes nothing; and the `nextToken`
-- behind it answers it too, and goes on where a `nextToken` without a peek would have.
pub peek_token-next_token :
    {source : Bytes} (s : Lexer)
    → length source < 2 ^ 64
    → IsReady source s
    → (t : Token) × (u : Lexer) × (next_token s ≡ some (t, u))
      × (peek_token s ≡ some (t, ahead t u))
      × (peek_token (ahead t u) ≡ some (t, ahead t u))
      × (next_token (ahead t u) ≡ some (t, record u { peeked_token = t }))
unfolding peek_token
peek_token-next_token s small h =
    let (t, u, e, i, k, ends) = next_token-IsReady s small h in
    (
      t,
      u,
      e,
      peek_token-fresh s u t h.settled.unread e,
      refl,
      next_token-ahead u t k.settled.unread,
    )

-- `s` with another source, rest and reports.
abbrev over : Lexer → List Diagnostic → Bytes → Bytes → Lexer
over s diags source rest = record s {
  cursor = record s.cursor { source = source; rest = rest };
  diags = diags;
}

-- A state saved between two tokens of a source is restored over whatever the lexer did on that
-- source: all is as it was, but for the reports, which stay.
pub restore_state-save_state :
    {source : Bytes} (s u : Lexer)
    → IsReady source s
    → u.cursor.source ≡ source
    → restore_state (save_state s) u ≡ record s { diags = u.diags }
unfolding restore_state save_state
restore_state-save_state {source} s u h e =
    let back : drop s.cursor.pos s.cursor.source ≡ s.cursor.rest =
      rw (h.at.splits, h.at.pos) (drop-append h.read s.cursor.rest) in
    ap (λ (b : Bytes). over s u.diags b (drop s.cursor.pos b)) (e ∙ sym h.of_source)
    ∙ ap (over s u.diags s.cursor.source) back
