-- ===== src/Lexer/Stops.antt =====
-- Where `skipWhitespace` stops.
use liva_lang.Base.{
  ℕ, zero, suc, ◌+◌, ◌-◌, ◌≤◌, Bool, true, false, [], ◌∷◌, ◌≡◌, refl, ◌⊎◌, inl, inr, arith, ◌==◌,
  length, ap, ◌∙◌, on_if, Bytes, ◌&&◌, ◌||◌, not, none, some, get_elem?, if_false,
}
use liva_lang.Lexer.Blank.{
  Mark, finished, opening, closing, other, Blank, space, line_comment, block_comment, token,
  block_mark, block_loop, skip_line_comment, skip_block_comment, blank_mark, blank_loop,
  skip_whitespace, is_space,
}
use liva_lang.Lexer.Moves.Blank.{block_loop-Moves}
use liva_lang.Lexer.Moves.{Moves, here, more, advance_while-Moves}
use liva_lang.Lexer.Progress.{length-Moves}
use liva_lang.Lexer.State.{Cursor, Lexer, advance, advance_on, looking, peek_next}

-- The case of a mark, with its equation.
on_mark_at {ℓ κ} :
    {A : Type ℓ} (P : A → Type κ) (m : Mark) {x y z w : A}
    → (m ≡ finished → P x)
    → P y
    → P z
    → P w
    → P (elim m [ finished ↦ x | opening ↦ y | closing ↦ z | other ↦ w ])
on_mark_at P finished a b c d = a refl
on_mark_at P opening a b c d = b
on_mark_at P closing a b c d = c
on_mark_at P other a b c d = d

on_blank_at {ℓ κ} :
    {A : Type ℓ} (P : A → Type κ) (m : Blank) {x y z w : A}
    → P x
    → P y
    → P z
    → (m ≡ token → P w)
    → P (elim m [ space ↦ x | line_comment ↦ y | block_comment ↦ z | token ↦ w ])
on_blank_at P space a b c d = a
on_blank_at P line_comment a b c d = b
on_blank_at P block_comment a b c d = c
on_blank_at P token a b c d = d refl

length-advance_on :
    (bs : Bytes) (c : Cursor) → c.rest ≡ bs → length (advance_on bs c).rest ≡ length bs - 1
unfolding advance_on
length-advance_on [] c e = ap length e
length-advance_on (b ∷ bs) c e = omega arith

length-advance_minus : (c : Cursor) → length (advance c).rest ≡ length c.rest - 1
unfolding advance
length-advance_minus c = length-advance_on c.rest c refl

looking_end : (k : ℕ) (test : ℕ → Bool) (c : Cursor) → length c.rest ≡ 0 → looking k test c ≡ false
unfolding looking
looking_end k test c h =
    ap (λ (bs : Bytes). elim (get_elem? bs k) [ none ↦ false | some b ↦ test b ]) (nothing c.rest h)
  where
    nothing : (bs : Bytes) → length bs ≡ 0 → bs ≡ []
    nothing [] h = refl
    nothing (b ∷ bs) h = absurd (omega arith)

looking_more : (c : Cursor) → looking 0 (λ _. true) c ≡ false → length c.rest ≡ 0
unfolding looking
looking_more c h = empty c.rest h
  where
    empty :
        (bs : Bytes)
        → elim (get_elem? bs 0) [ none ↦ false | some b ↦ true ] ≡ false
        → length bs ≡ 0
    empty [] h = refl
    empty (b ∷ bs) h = cc

abbrev Ended : ℕ → Cursor → Mark → Type 0
Ended depth c m = m ≡ finished → (depth ≡ 0) ⊎ (length c.rest ≡ 0)

block_mark-finished :
    (depth : ℕ) (c : Cursor) → block_mark depth c ≡ finished → (depth ≡ 0) ⊎ (length c.rest ≡ 0)
unfolding block_mark
block_mark-finished zero c = λ h. inl refl
block_mark-finished (suc d) c =
    on_if (Ended (suc d) c) (looking 0 (λ _. true) c && not (suc d == 0))
      (λ t.
        on_if (Ended (suc d) c) (looking 0 (λ b. b == b'/') c && peek_next c == b'*') (λ k h. cc)
          (λ k.
            on_if (Ended (suc d) c) (looking 0 (λ b. b == b'*') c && peek_next c == b'/')
              (λ k h. cc) (λ k h. cc)))
      (λ t h. inr (looking_more c (ground (arith, t))))

block_loop_end :
    (fuel depth : ℕ) (c : Cursor)
    → length c.rest ≤ fuel
    → ((block_loop fuel depth c).0 ≡ 0) ⊎ (length (block_loop fuel depth c).1.rest ≡ 0)
unfolding block_loop
block_loop_end zero depth c h = inr (omega arith)
block_loop_end (suc fuel) depth c h =
    let a = length-advance_minus c in
    let b = length-advance_minus (advance c) in
    on_mark_at (λ (r : ℕ × Cursor). (r.0 ≡ 0) ⊎ (length r.1.rest ≡ 0)) (block_mark depth c)
      (block_mark-finished depth c) (block_loop_end fuel (depth + 1) _ (omega arith))
      (block_loop_end fuel (depth - 1) _ (omega arith)) (block_loop_end fuel depth _ (omega arith))

blank_mark_end : (c : Cursor) → length c.rest ≡ 0 → blank_mark c ≡ token
unfolding blank_mark
blank_mark_end c h =
    let slash = looking_end 0 (λ b. b == b'/') c h in
    if_false (looking 0 is_space c) _ _ (looking_end 0 is_space c h)
    ∙ if_false (looking 0 (λ b. b == b'/') c && peek_next c == b'/') _ _ (ground (arith, slash))
    ∙ if_false (looking 0 (λ b. b == b'/') c && peek_next c == b'*') _ _ (ground (arith, slash))

-- A comment that is not closed reaches the end.
skip_block_comment_open :
    (s : Lexer) → (skip_block_comment s).1 ≡ false → length (skip_block_comment s).0.cursor.rest ≡ 0
unfolding skip_block_comment
skip_block_comment_open s =
    let c = advance (advance s.cursor) in
    let r = block_loop (length c.rest) 1 c in
    on_if (λ (t : Lexer × Bool). t.1 ≡ false → length t.0.cursor.rest ≡ 0) (r.0 == 0) (λ k h. cc)
      (λ k h. elim (block_loop_end (length c.rest) 1 c (omega arith)) [
        | inl closed ↦ absurd (ground (arith, k, closed))
        | inr done ↦ done
      ])

length-skip_block_comment :
    (s : Lexer) → length (skip_block_comment s).0.cursor.rest ≤ length (advance s.cursor).rest
unfolding skip_block_comment
length-skip_block_comment s =
    let c = advance (advance s.cursor) in
    let m : Moves (advance s.cursor) (block_loop (length c.rest) 1 c).1 =
      block_loop-Moves (length c.rest) 1 c (more here) in
    on_if (λ (t : Lexer × Bool). length t.0.cursor.rest ≤ length (advance s.cursor).rest)
      ((block_loop (length c.rest) 1 c).0 == 0) (λ k. length-Moves m) (λ k. length-Moves m)

length-skip_line_comment :
    (c : Cursor) → length (skip_line_comment c).rest ≤ length (advance c).rest
unfolding skip_line_comment
length-skip_line_comment c = length-Moves (advance_while-Moves _ (more here))

blank_loop-token :
    (fuel : ℕ) (s : Lexer)
    → length s.cursor.rest ≤ fuel
    → blank_mark (blank_loop fuel s).cursor ≡ token
unfolding blank_loop
blank_loop-token zero s h = blank_mark_end s.cursor (omega arith)
blank_loop-token (suc fuel) s h =
    let a = length-advance_minus s.cursor in
    on_blank_at (λ (r : Lexer). blank_mark r.cursor ≡ token) (blank_mark s.cursor)
      (blank_loop-token fuel _ (omega arith))
      (blank_loop-token fuel _ (omega (arith, length-skip_line_comment s.cursor)))
      (on_if (λ (r : Lexer). blank_mark r.cursor ≡ token) (skip_block_comment s).1
        (λ closed. blank_loop-token fuel _ (omega (arith, length-skip_block_comment s)))
        (λ unclosed.
          blank_mark_end (skip_block_comment s).0.cursor (skip_block_comment_open s unclosed)))
      (λ e. e)

blank_loop_stop : (s : Lexer) → blank_mark (skip_whitespace s).cursor ≡ token
unfolding skip_whitespace
blank_loop_stop s = blank_loop-token (length s.cursor.rest) s (omega arith)

-- What opens a comment behind a slash: a star, or a slash that is not the second of three
abbrev pub opens_comment : Bytes → Bool
opens_comment [] = false
opens_comment (b ∷ []) = b == b'*' || b == b'/'
opens_comment (b ∷ d ∷ r) = b == b'*' || (b == b'/' && not (d == b'/'))

-- A text that is empty, or begins with neither a blank (space, tab, carriage return, newline) nor a
-- comment; a documentation comment is not one.
abbrev pub starts_token : Bytes → Bool
starts_token [] = true
starts_token (b ∷ r) =
    not (b == 32 || (b == 9 || (b == 13 || b == 10))) && not (b == b'/' && opens_comment r)

token-starts :
    (bs : Bytes) (c : Cursor) → c.rest ≡ bs → blank_mark c ≡ token → starts_token bs ≡ true
unfolding blank_mark looking is_space
token-starts [] c e h = refl
token-starts (b ∷ []) c e h = ground (arith, e, h)
token-starts (b ∷ d ∷ []) c e h = ground (arith, e, h)
token-starts (b ∷ d ∷ f ∷ r) c e h = ground (arith, e, h)

-- Where `skipWhitespace` stops, the rest of the source is empty, or it begins with neither a space, a
-- tab, a carriage return or a newline, nor `/*`, nor `//` unless a third slash follows.
pub skip_whitespace-token : (s : Lexer) → starts_token (skip_whitespace s).cursor.rest ≡ true
skip_whitespace-token s = token-starts _ (skip_whitespace s).cursor refl (blank_loop_stop s)
