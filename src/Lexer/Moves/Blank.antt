-- ===== src/Lexer/Moves/Blank.antt =====
-- The moves of the functions that skip blanks and comments.
use liva_lang.Base.{ℕ, zero, suc, ◌+◌, ◌-◌, ◌==◌, length, on_if, Bool}
use liva_lang.Lexer.Blank.{
  Mark, finished, opening, closing, other, Blank, space, line_comment, block_comment, token,
  block_mark, block_loop, skip_line_comment, skip_block_comment, blank_mark, blank_loop,
  skip_whitespace,
}
use liva_lang.Lexer.Moves.Defs.{Moves, here, more, Moves-trans, advance_while-Moves}
use liva_lang.Lexer.State.{Cursor, Lexer, advance}

pub on_mark {ℓ κ} :
    {A : Type ℓ} (P : A → Type κ) (m : Mark) {x y z w : A}
    → P x
    → P y
    → P z
    → P w
    → P (elim m [ finished ↦ x | opening ↦ y | closing ↦ z | other ↦ w ])
on_mark P finished a b c d = a
on_mark P opening a b c d = b
on_mark P closing a b c d = c
on_mark P other a b c d = d

pub on_blank {ℓ κ} :
    {A : Type ℓ} (P : A → Type κ) (m : Blank) {x y z w : A}
    → P x
    → P y
    → P z
    → P w
    → P (elim m [ space ↦ x | line_comment ↦ y | block_comment ↦ z | token ↦ w ])
on_blank P space a b c d = a
on_blank P line_comment a b c d = b
on_blank P block_comment a b c d = c
on_blank P token a b c d = d

skip_line_comment-Moves : (c : Cursor) → Moves c (skip_line_comment c)
unfolding skip_line_comment
skip_line_comment-Moves c = advance_while-Moves _ (more (more here))

pub block_loop-Moves :
    (fuel depth : ℕ) {b : Cursor} (c : Cursor) → Moves b c → Moves b (block_loop fuel depth c).1
unfolding block_loop
block_loop-Moves zero depth c m = m
block_loop-Moves (suc fuel) depth {b} c m =
    on_mark (λ (r : ℕ × Cursor). Moves b r.1) (block_mark depth c) m
      (block_loop-Moves fuel (depth + 1) _ (more (more m)))
      (block_loop-Moves fuel (depth - 1) _ (more (more m))) (block_loop-Moves fuel depth _ (more m))

pub skip_block_comment-Moves :
    (s : Lexer) {b : Cursor} → Moves b s.cursor → Moves b (skip_block_comment s).0.cursor
unfolding skip_block_comment
skip_block_comment-Moves s {b} m =
    let c = advance (advance s.cursor) in
    let ended = block_loop-Moves (length c.rest) 1 c (more (more m)) in
    on_if (λ (r : Lexer × Bool). Moves b r.0.cursor) ((block_loop (length c.rest) 1 c).0 == 0)
      (λ _. ended) (λ _. ended)

blank_loop-Moves :
    (fuel : ℕ) (s : Lexer) {b : Cursor} → Moves b s.cursor → Moves b (blank_loop fuel s).cursor
unfolding blank_loop
blank_loop-Moves zero s m = m
blank_loop-Moves (suc fuel) s {b} m =
    let skipped = skip_block_comment-Moves s m in
    on_blank (λ (r : Lexer). Moves b r.cursor) (blank_mark s.cursor)
      (blank_loop-Moves fuel _ (more m))
      (blank_loop-Moves fuel _ (Moves-trans m (skip_line_comment-Moves s.cursor)))
      (on_if (λ (r : Lexer). Moves b r.cursor) (skip_block_comment s).1
        (λ _. blank_loop-Moves fuel _ skipped) (λ _. skipped))
      m

pub skip_whitespace-Moves : (s : Lexer) → Moves s.cursor (skip_whitespace s).cursor
unfolding skip_whitespace
skip_whitespace-Moves s = blank_loop-Moves (length s.cursor.rest) s here
