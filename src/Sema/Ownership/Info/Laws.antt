-- ===== src/Sema/Ownership/Info/Laws.antt =====
-- The borrows of one variable, beside an automaton of five states.
use mathlib.Core.Path.{subst}
use liva_lang.Base.{
  ℕ, zero, suc, ◌-◌, Bool, true, false, [], Option, none, some, Bytes, ltb, ◌==◌, ◌≡◌, ◌≢◌, refl,
  arith, ap, sym, ◌∙◌,
}
use liva_lang.Lexer.State.{SourceLocation}
use liva_lang.Sema.Ownership.Info.{
  OwnershipInfo, OwnershipState, Outcome, mark_moved, add_borrow, release_borrow,
}

-- `shared n` has `n + 1` readers.
pub data Claim : Type 0 where
  free exclusive moved dropped : Claim
  shared : ℕ → Claim

-- A new borrow: readers may join readers, a writer is alone, and nothing is borrowed once moved.
abbrev pub borrow : Bool → Claim → Option Claim
borrow mutable Claim.moved = none
borrow true Claim.free = some Claim.exclusive
borrow true Claim.dropped = some Claim.exclusive
borrow true _ = none
borrow false Claim.exclusive = none
borrow false (Claim.shared n) = some (Claim.shared (suc n))
borrow false _ = some (Claim.shared 0)

-- The end of one borrow.
abbrev pub release : Bool → Claim → Claim
release true Claim.exclusive = Claim.free
release false (Claim.shared zero) = Claim.free
release false (Claim.shared (suc n)) = Claim.shared n
release _ c = c

-- A move: never while there is a borrow, and only once.
abbrev pub move_out : Claim → Option Claim
move_out Claim.free = some Claim.moved
move_out Claim.dropped = some Claim.moved
move_out _ = none

-- The variable shows the claim: the state, the count and the flag fit each other.
abbrev pub Shows : OwnershipInfo → Claim → Type 0
Shows i Claim.free =
    (i.state ≡ OwnershipState.owned) × (i.borrow_count ≡ 0) × (i.has_mutable_borrow ≡ false)
Shows i Claim.exclusive =
    (i.state ≡ OwnershipState.borrowed_mutable)
    × (i.borrow_count ≡ 0)
    × (i.has_mutable_borrow ≡ true)
Shows i Claim.moved =
    (i.state ≡ OwnershipState.moved) × (i.borrow_count ≡ 0) × (i.has_mutable_borrow ≡ false)
Shows i Claim.dropped =
    (i.state ≡ OwnershipState.dropped) × (i.borrow_count ≡ 0) × (i.has_mutable_borrow ≡ false)
Shows i (Claim.shared n) =
    (i.state ≡ OwnershipState.borrowed_immutable)
    × (i.borrow_count ≡ suc n)
    × (i.has_mutable_borrow ≡ false)

-- An allowed step shows the new claim without a report; a refused one changes nothing and reports.
abbrev pub Follows : OwnershipInfo → Outcome → Option Claim → Type 0
Follows i o none = (o.allowed ≡ false) × (o.info ≡ i) × (o.reports ≢ [])
Follows i o (some c) = (o.allowed ≡ true) × Shows o.info c × (o.reports ≡ [])

abbrev with_claim : OwnershipInfo → OwnershipState → ℕ → Bool → OwnershipInfo
with_claim i s n b = record i { state = s; borrow_count = n; has_mutable_borrow = b }

with_claim-eq :
    (i : OwnershipInfo) {s : OwnershipState} {n : ℕ} {b : Bool}
    → (i.state ≡ s) × (i.borrow_count ≡ n) × (i.has_mutable_borrow ≡ b)
    → with_claim i s n b ≡ i
with_claim-eq i {s} {n} {b} h =
    ap (λ (t : OwnershipState). with_claim i t n b) (sym h.0)
    ∙ ap (λ (m : ℕ). with_claim i i.state m b) (sym h.1)
    ∙ ap (with_claim i i.state i.borrow_count) (sym h.2)

-- The variable with a claim written into it.
abbrev pub shape : OwnershipInfo → Claim → OwnershipInfo
shape i Claim.free = record i {
  state = OwnershipState.owned;
  borrow_count = 0;
  has_mutable_borrow = false;
}
shape i Claim.exclusive = record i {
  state = OwnershipState.borrowed_mutable;
  borrow_count = 0;
  has_mutable_borrow = true;
}
shape i Claim.moved = record i {
  state = OwnershipState.moved;
  borrow_count = 0;
  has_mutable_borrow = false;
}
shape i Claim.dropped = record i {
  state = OwnershipState.dropped;
  borrow_count = 0;
  has_mutable_borrow = false;
}
shape i (Claim.shared n) = record i {
  state = OwnershipState.borrowed_immutable;
  borrow_count = suc n;
  has_mutable_borrow = false;
}

pub shape-eq : (i : OwnershipInfo) (c : Claim) → Shows i c → shape i c ≡ i
shape-eq i Claim.free h = with_claim-eq i h
shape-eq i Claim.exclusive h = with_claim-eq i h
shape-eq i Claim.moved h = with_claim-eq i h
shape-eq i Claim.dropped h = with_claim-eq i h
shape-eq i (Claim.shared n) h = with_claim-eq i h

-- One reader or more.
positive : (n : ℕ) → ltb 0 (suc n) ≡ true
positive n = ground arith

not_none : (n : ℕ) → (suc n == 0) ≡ false
not_none n = ground arith

suc_minus : (n : ℕ) → suc (suc n) - 1 ≡ suc n
suc_minus n = omega arith

add_borrow-shape :
    (name : Bytes) (m : Bool) (loc : SourceLocation) (i : OwnershipInfo) (c : Claim)
    → Follows (shape i c) (add_borrow name m loc (shape i c)) (borrow m c)
unfolding add_borrow
add_borrow-shape name m loc i Claim.moved = (refl, refl, λ e. cc)
add_borrow-shape name true loc i Claim.free = (refl, (refl, refl, refl), refl)
add_borrow-shape name true loc i Claim.dropped = (refl, (refl, refl, refl), refl)
add_borrow-shape name true loc i Claim.exclusive = (refl, refl, λ e. cc)
add_borrow-shape name true loc i (Claim.shared n) = rw (positive n) (refl, refl, λ e. cc)
add_borrow-shape name false loc i Claim.free = (refl, (refl, refl, refl), refl)
add_borrow-shape name false loc i Claim.dropped = (refl, (refl, refl, refl), refl)
add_borrow-shape name false loc i Claim.exclusive = (refl, refl, λ e. cc)
add_borrow-shape name false loc i (Claim.shared n) = (refl, (refl, omega arith, refl), refl)

release_borrow-shape :
    (m : Bool) (i : OwnershipInfo) (c : Claim) → Shows (release_borrow m (shape i c)) (release m c)
unfolding release_borrow
release_borrow-shape true i Claim.free = (refl, refl, refl)
release_borrow-shape true i Claim.exclusive = (refl, refl, refl)
release_borrow-shape true i Claim.moved = (refl, refl, refl)
release_borrow-shape true i Claim.dropped = (refl, refl, refl)
release_borrow-shape true i (Claim.shared n) = rw (not_none n) (refl, refl, refl)
release_borrow-shape false i Claim.free = (refl, refl, refl)
release_borrow-shape false i Claim.exclusive = (refl, refl, refl)
release_borrow-shape false i Claim.moved = (refl, refl, refl)
release_borrow-shape false i Claim.dropped = (refl, refl, refl)
release_borrow-shape false i (Claim.shared zero) = (refl, refl, refl)
release_borrow-shape false i (Claim.shared (suc n)) =
    rw (suc_minus n, not_none n) (refl, refl, refl)

mark_moved-shape :
    (name : Bytes) (loc : SourceLocation) (i : OwnershipInfo) (c : Claim)
    → i.is_copy_type ≡ false
    → Follows (shape i c) (mark_moved name loc (shape i c)) (move_out c)
unfolding mark_moved
mark_moved-shape name loc i Claim.free h = rw h (refl, (refl, refl, refl), refl)
mark_moved-shape name loc i Claim.exclusive h = rw h (refl, refl, λ e. cc)
mark_moved-shape name loc i Claim.moved h = rw h (refl, refl, λ e. cc)
mark_moved-shape name loc i Claim.dropped h = rw h (refl, (refl, refl, refl), refl)
mark_moved-shape name loc i (Claim.shared n) h = rw (h, positive n) (refl, refl, λ e. cc)

-- The operations on a variable that shows a claim do what the automaton says: `addBorrow` borrows
-- and `markMoved` moves a variable of no Copy type if the automaton does, and otherwise they report
-- and change nothing; `releaseBorrow` gives one borrow back.
pub borrow-refines :
    (name : Bytes) (m : Bool) (loc : SourceLocation) (i : OwnershipInfo) (c : Claim)
    → Shows i c
    → Follows i (add_borrow name m loc i) (borrow m c)
      × Shows (release_borrow m i) (release m c)
      × (i.is_copy_type ≡ false → Follows i (mark_moved name loc i) (move_out c))
borrow-refines name m loc i c h =
    let e = shape-eq i c h in
    (
      subst (λ (j : OwnershipInfo). Follows j (add_borrow name m loc j) (borrow m c)) e
          (add_borrow-shape name m loc i c),
      subst (λ (j : OwnershipInfo). Shows (release_borrow m j) (release m c)) e
          (release_borrow-shape m i c),
      λ k.
          subst (λ (j : OwnershipInfo). Follows j (mark_moved name loc j) (move_out c)) e
            (mark_moved-shape name loc i c k),
    )
