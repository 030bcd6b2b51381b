-- ===== src/Lexer/Position.antt =====
-- Lines and columns: what the counters of the lexer say of the bytes read so far.
use mathlib.Core.List.{append-nil, append_assoc}
use liva_lang.Base.{
  ℕ, suc, ◌+◌, [], ◌∷◌, ◌++◌, ◌≡◌, refl, sym, ap, ◌∙◌, arith, Bytes, ◌==◌, if◌then◌else◌, length,
  length-append,
}
use liva_lang.Lexer.Moves.{Moves, here, more}
use liva_lang.Lexer.State.{Cursor, SourceLocation, advance, advance_on, u32}

-- The newlines of a text.
unfoldable pub newlines : Bytes → ℕ
newlines [] = 0
newlines (b ∷ bs) = (if b == b'\n' then 1 else 0) + newlines bs

-- What stands behind the last newline of a text.
unfoldable pub last_line : Bytes → Bytes
last_line [] = []
last_line (b ∷ bs) = if newlines bs == 0 then (if b == b'\n' then bs else b ∷ bs) else last_line bs

-- The place behind a text: one more than its newlines, and than the bytes of its last line.
unfoldable pub location_at : Bytes → SourceLocation
location_at read = record {
  line = u32 (1 + newlines read);
  column = u32 (1 + length (last_line read));
  offset = u32 (length read);
}

pub newlines-append : (a b : Bytes) → newlines (a ++ b) ≡ newlines a + newlines b
unfolding newlines
newlines-append [] b = omega arith
newlines-append (x ∷ a) b = ground (arith, newlines-append a b)

length-last_line-concat :
    (a : Bytes) (b : ℕ)
    → length (last_line (a ++ b ∷ [])) ≡ (if b == b'\n' then 0 else suc (length (last_line a)))
unfolding last_line newlines
length-last_line-concat [] b = ground arith
length-last_line-concat (x ∷ a) b =
    ground
      (arith, length-last_line-concat a b, newlines-append a (b ∷ []), length-append a (b ∷ []))

-- Bytes with no newline lengthen the last line.
pub length-last_line-append :
    (a b : Bytes) → newlines b ≡ 0 → length (last_line (a ++ b)) ≡ length (last_line a) + length b
unfolding newlines
length-last_line-append a [] h = rw append-nil (omega arith)
length-last_line-append a (x ∷ b) h =
    ap (λ (t : Bytes). length (last_line t)) (sym (append_assoc a (x ∷ []) b))
    ∙ ground (arith, length-last_line-append (a ++ x ∷ []) b, length-last_line-concat a x)

-- `read` has been read at the cursor `c`, and the counters say where its end is.
pub record At (read : Bytes) (c : Cursor) : Type 0 where
  pub splits : c.source ≡ read ++ c.rest
  pub pos : c.pos ≡ length read
  pub line : c.line ≡ u32 (1 + newlines read)
  pub column : c.column ≡ u32 (1 + length (last_line read))

At-advance_on :
    (bs : Bytes) (read : Bytes) (c : Cursor)
    → c.rest ≡ bs
    → At read c
    → (body : Bytes) × At (read ++ body) (advance_on bs c) × (bs ≡ body ++ (advance_on bs c).rest)
unfolding advance_on newlines
At-advance_on [] read c e h = ([], rw append-nil h, sym e)
At-advance_on (b ∷ bs) read c e h = (
  b ∷ [],
  record {
    splits = h.splits ∙ ap (◌++◌ read) e ∙ sym (append_assoc read (b ∷ []) bs);
    pos = omega (arith, h.pos, length-append read (b ∷ []));
    line = ground (arith, h.line, newlines-append read (b ∷ []));
    column = ground (arith, h.column, length-last_line-concat read b);
  },
  refl,
)

-- What a cursor moves over is read behind it.
pub At-Moves :
    {read : Bytes} {c d : Cursor}
    → At read c
    → Moves c d
    → (body : Bytes) × At (read ++ body) d × (c.rest ≡ body ++ d.rest)
unfolding advance
At-Moves h here = ([], rw append-nil h, refl)
At-Moves {read} {c} h (more {d} m) =
    let (body, k, e) = At-Moves h m in
    let (last, l, f) = At-advance_on d.rest (read ++ body) d refl k in
    (body ++ last, rw (← append_assoc) l, e ∙ ap (◌++◌ body) f ∙ sym (append_assoc body last _))
