-- ===== src/Lexer/Tokens.antt =====
-- Where the tokens of a source stand, and what `lexAll` returns.
use mathlib.Core.List.{append_assoc}
use mathlib.Core.Path.{subst}
use liva_lang.Base.{
  ℕ, zero, suc, ◌+◌, ◌-◌, ◌≤◌, ◌<◌, ◌^◌, true, false, List, [], ◌∷◌, ◌++◌, some, ◌≡◌, refl, sym, ap,
  ◌∙◌, ◌⊎◌, inl, inr, arith, Bytes, length, length-append, drop-append, take-append,
}
use liva_lang.Lexer.Kinds.{TokenKind, is_eof_kind}
use liva_lang.Lexer.Moves.{Moves, Moves-trans, Made}
use liva_lang.Lexer.Moves.Next.{Lexes}
use liva_lang.Lexer.Moves.Literals.{IsSettled}
use liva_lang.Lexer.Next.{next_token, lex_all_with, lex_all}
use liva_lang.Lexer.Position.{
  newlines, last_line, location_at, length-last_line-append, newlines-append, At, At-Moves,
}
use liva_lang.Lexer.Progress.{IsNarrow, Ends, next_with-Answer}
use liva_lang.Lexer.State.{
  Cursor, Lexer, Token, SourceLocation, token_location, text_from, u32, initial,
}

-- A token of the source, from the byte `first` on and before the byte `end`: `body` follows `before`.
-- Its text is `body`, unless it is a documentation comment, and its place is that of the end of
-- `before`, unless it holds a newline.
pub record IsIn (source : Bytes) (first end : ℕ) (t : Token) : Type 0 where
  pub before : Bytes
  pub body : Bytes
  pub after : Bytes
  pub splits : source ≡ before ++ (body ++ after)
  pub text : (t.kind ≡ TokenKind.doc_comment) ⊎ (t.text ≡ body)
  pub line : t.location.line ≡ u32 (1 + newlines before + newlines body)
  pub place : newlines body ≡ 0 → t.location ≡ location_at before
  pub starts : first ≤ length before
  pub stops : length (before ++ body) ≤ end

IsIn-from :
    {source : Bytes} {first later end : ℕ} {t : Token}
    → IsIn source later end t
    → first ≤ later
    → IsIn source first end t
IsIn-from i le = record {
  before = i.before;
  body = i.body;
  after = i.after;
  splits = i.splits;
  text = i.text;
  line = i.line;
  place = i.place;
  starts = omega (arith, i.starts);
  stops = i.stops;
}

-- The text from one cursor to another.
text_from-At :
    {read body : Bytes} (c d : Cursor) → At read c → At (read ++ body) d → text_from c.pos d ≡ body
text_from-At {read} {body} c d h k =
    let e : d.pos - c.pos ≡ length body = omega (arith, h.pos, k.pos, length-append read body) in
    rw (e, k.splits, h.pos, append_assoc, drop-append read (body ++ d.rest))
      (take-append body d.rest)

token_location-At :
    {read : Bytes} (body : Bytes) (c d : Cursor)
    → At read c
    → At (read ++ body) d
    → length body < 2 ^ 64
    → newlines body ≡ 0
    → token_location c.pos d ≡ location_at read
unfolding token_location location_at
token_location-At {read} body c d h k small flat =
    let e : d.pos - c.pos ≡ length body = omega (arith, h.pos, k.pos, length-append read body) in
    let lines : newlines (read ++ body) ≡ newlines read =
      omega (arith, newlines-append read body) in
    let columns = length-last_line-append read body flat in
    rw (e, h.pos, k.line, k.column, lines, columns) (ground arith)

pos-Moves : {read : Bytes} {c d : Cursor} → At read c → Moves c d → c.pos ≤ d.pos
pos-Moves {read} h m =
    let (body, k, e) = At-Moves h m in omega (arith, h.pos, k.pos, length-append read body)

Made-IsIn :
    {read : Bytes} (c d : Cursor) (t : Token)
    → At read c
    → length c.source < 2 ^ 64
    → Made c t d
    → IsIn c.source c.pos d.pos t
unfolding token_location
Made-IsIn {read} c d t h small m =
    let (body, k, e) = At-Moves h m.first_part in
    let fits : length body < 2 ^ 64 = omega (
      arith,
      ap length h.splits,
      ap length e,
      length-append read c.rest,
      length-append body m.last.rest,
    ) in
    record {
      before = read;
      body = body;
      after = m.last.rest;
      splits = h.splits ∙ ap (◌++◌ read) e;
      text = or_text m.text (text_from-At c m.last h k);
      line =
          ap (λ (l : SourceLocation). l.line) m.location
          ∙ k.line
          ∙ ap u32 (omega (arith, newlines-append read body));
      place = λ flat. m.location ∙ token_location-At body c m.last h k fits flat;
      starts = omega (arith, h.pos);
      stops = omega (arith, k.pos, pos-Moves k m.second_part);
    }
  where
    or_text :
        {w v : Bytes}
        → (t.kind ≡ TokenKind.doc_comment) ⊎ (t.text ≡ w)
        → w ≡ v
        → (t.kind ≡ TokenKind.doc_comment) ⊎ (t.text ≡ v)
    or_text (inl x) e = inl x
    or_text (inr x) e = inr (x ∙ e)

-- Moves keep the source.
At-source : {read : Bytes} {c d : Cursor} → At read c → Moves c d → d.source ≡ c.source
At-source {read} h m =
    let (body, k, e) = At-Moves h m in
    k.splits ∙ append_assoc read body _ ∙ ap (◌++◌ read) (sym e) ∙ sym h.splits

Lexes-IsIn :
    {read : Bytes} (c d : Cursor) (t : Token)
    → At read c
    → length c.source < 2 ^ 64
    → Lexes c t d
    → IsIn c.source c.pos d.pos t
Lexes-IsIn {read} c d t h small l =
    let (body, k, e) = At-Moves h l.lead in
    let same = At-source h l.lead in
    let i = Made-IsIn l.begin d t k (omega (arith, ap length same)) l.made in
    subst (λ (b : Bytes). IsIn b c.pos d.pos t) same (IsIn-from i (pos-Moves h l.lead))

-- The invariant between two calls of `nextToken` on a source, no token being read ahead.
pub record IsReady (source : Bytes) (s : Lexer) : Type 0 where
  pub read : Bytes
  pub at : At read s.cursor
  pub of_source : s.cursor.source ≡ source
  pub settled : IsSettled s

IsReady-IsNarrow : {source : Bytes} {s : Lexer} → IsReady source s → IsNarrow s.cursor
IsReady-IsNarrow h = omega (arith, h.at.column)

pub initial-IsReady : (source : Bytes) → IsReady source (initial source)
unfolding newlines last_line
initial-IsReady source = record {
  read = [];
  at = record { splits = refl; pos = refl; line = refl; column = refl };
  of_source = refl;
  settled = record { unread = refl; continued = refl; opened = λ e. absurd (cc) };
}

-- `nextToken` between two tokens of a source of less than 2^64 bytes: it answers, with a token that
-- stands between the cursors before and after the call, the invariant holds again, and either the
-- token is the end of the input and no byte is left, or it is not and fewer bytes are left.
pub next_token-IsReady :
    {source : Bytes} (s : Lexer)
    → length source < 2 ^ 64
    → IsReady source s
    → (t : Token) × (u : Lexer) × (next_token s ≡ some (t, u))
      × IsIn source s.cursor.pos u.cursor.pos t
      × IsReady source u
      × Ends s.cursor t u.cursor
unfolding next_token
next_token-IsReady {source} s small h =
    let (t, u, e, a) =
      next_with-Answer (suc (length s.cursor.rest)) s (omega arith) (IsReady-IsNarrow h)
        h.settled in
    let moved =
      Moves-trans a.lexes.lead (Moves-trans a.lexes.made.first_part a.lexes.made.second_part) in
    let (body, k, f) = At-Moves h.at moved in
    (
      t,
      u,
      e,
      subst (λ (b : Bytes). IsIn b s.cursor.pos u.cursor.pos t) h.of_source
          (Lexes-IsIn s.cursor u.cursor t h.at (omega (arith, ap length h.of_source)) a.lexes),
      record {
        read = h.read ++ body;
        at = k;
        of_source = At-source h.at moved ∙ h.of_source;
        settled = a.settled;
      },
      a.kind_or_end,
    )

-- The tokens end with the only end token.
abbrev pub IsStream : List Token → Type 0
IsStream [] = ⊥
IsStream (t ∷ []) = is_eof_kind t.kind ≡ true
IsStream (t ∷ u ∷ ts) = (is_eof_kind t.kind ≡ false) × IsStream (u ∷ ts)

-- Each token stands in the source behind the one before it, from the byte `first` on.
abbrev pub AllIn : Bytes → ℕ → List Token → Type 0
AllIn source first [] = Unit
AllIn source first (t ∷ ts) = (end : ℕ) × IsIn source first end t × AllIn source end ts

IsStream-cons :
    (t : Token) (ts : List Token) → is_eof_kind t.kind ≡ false → IsStream ts → IsStream (t ∷ ts)
IsStream-cons t [] e h = absurd h
IsStream-cons t (u ∷ ts) e h = (e, h)

-- What `lexAll` returns: tokens of the source up to its end.
abbrev pub LexesAll : Bytes → ℕ → Lexer → Type 0
LexesAll source fuel s =
    (ts : List Token) × (u : Lexer) × (lex_all_with fuel s ≡ some (ts, u))
    × IsStream ts
    × AllIn source s.cursor.pos ts
    × (u.cursor.rest ≡ [])

lex_all_with_end :
    (fuel : ℕ) (s u : Lexer) (t : Token)
    → next_token s ≡ some (t, u)
    → is_eof_kind t.kind ≡ true
    → lex_all_with (suc fuel) s ≡ some (t ∷ [], u)
unfolding lex_all_with
lex_all_with_end fuel s u t e h = rw (e, lex_all_with, h)

lex_all_with_more :
    (fuel : ℕ) (s u v : Lexer) (t : Token) (ts : List Token)
    → next_token s ≡ some (t, u)
    → is_eof_kind t.kind ≡ false
    → lex_all_with fuel u ≡ some (ts, v)
    → lex_all_with (suc fuel) s ≡ some (t ∷ ts, v)
unfolding lex_all_with
lex_all_with_more fuel s u v t ts e h k = rw (e, lex_all_with, h, k)

lex_all_with-LexesAll :
    {source : Bytes} (fuel : ℕ) (s : Lexer)
    → length source < 2 ^ 64
    → IsReady source s
    → length s.cursor.rest < fuel
    → LexesAll source fuel s
lex_all_with-LexesAll zero s small h f = absurd (omega arith)
lex_all_with-LexesAll {source} (suc fuel) s small h f =
    let (t, u, e, i, k, ends) = next_token-IsReady s small h in
    rest_of t u e i k ends (lex_all_with-LexesAll fuel u small k)
  where
    rest_of :
        (t : Token) (u : Lexer)
        → next_token s ≡ some (t, u)
        → IsIn source s.cursor.pos u.cursor.pos t
        → IsReady source u
        → Ends s.cursor t u.cursor
        → (length u.cursor.rest < fuel → LexesAll source fuel u)
        → LexesAll source (suc fuel) s
    rest_of t u e i k (inl (is_end, done)) next =
        (t ∷ [], u, lex_all_with_end fuel s u t e is_end, is_end, (u.cursor.pos, i, tt), done)
    rest_of t u e i k (inr (real, less)) next =
        let (ts, v, later, stream, all, done) = next (omega arith) in
        (
          t ∷ ts,
          v,
          lex_all_with_more fuel s u v t ts e real later,
          IsStream-cons t ts real stream,
          (u.cursor.pos, i, all),
          done,
        )

-- `lexAll` on a source of less than 2^64 bytes: it answers, the last token and no other is the end of
-- the input, every token stands in the source behind the one before it, and the source is read up to
-- its end. The text of a token is what stands there, unless it is a documentation comment; its line
-- is that of its end, and its line, column and offset are those of its first byte, cut to 32 bits,
-- unless it holds a newline.
pub lex_all-LexesAll :
    (source : Bytes)
    → length source < 2 ^ 64
    → (ts : List Token) × (u : Lexer) × (lex_all (initial source) ≡ some (ts, u))
      × IsStream ts
      × AllIn source 0 ts
      × (u.cursor.rest ≡ [])
unfolding lex_all
lex_all-LexesAll source small =
    lex_all_with-LexesAll (length source + 2) (initial source) small (initial-IsReady source)
      (omega arith)
