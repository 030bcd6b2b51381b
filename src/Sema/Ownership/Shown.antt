-- ===== src/Sema/Ownership/Shown.antt =====
-- The variables on the stack and the claims of the automaton that they show.
use liva_lang.Base.{
  ℕ, Bool, true, [], ◌∷◌, Option, none, some, Bytes, bytes_eq, ◌≡◌, refl, sym, ◌∙◌, arith, inl, inr,
  Bool-cases, length, ◌==◌,
}
use mathlib.Core.Path.{subst}
use liva_lang.Base.Dict.{Dict, put_key, modify_key}
use liva_lang.Lexer.State.{SourceLocation}
use liva_lang.Sema.Ownership.Info.{
  OwnershipInfo, Outcome, mark_moved, check_use, check_mutation, add_borrow, release_borrows,
  release_borrow, drop_info,
}
use liva_lang.Sema.Ownership.Info.Laws.{
  Claim, Shows, Follows, borrow, release, move_out, borrow-refines, shape, shape-eq,
}
use liva_lang.Sema.Ownership.Scopes.{Scopes, assign_at, Flags, new_info}
use liva_lang.Sema.Ownership.Steps.{hold, clear}

abbrev pub Shown : OwnershipInfo → Type 0
Shown i = (c : Claim) × Shows i c

pub Shows-same :
    (i j : OwnershipInfo) (c : Claim)
    → j.state ≡ i.state
    → j.borrow_count ≡ i.borrow_count
    → j.has_mutable_borrow ≡ i.has_mutable_borrow
    → Shows i c
    → Shows j c
Shows-same i j Claim.free e f g h = (e ∙ h.0, f ∙ h.1, g ∙ h.2)
Shows-same i j Claim.exclusive e f g h = (e ∙ h.0, f ∙ h.1, g ∙ h.2)
Shows-same i j Claim.moved e f g h = (e ∙ h.0, f ∙ h.1, g ∙ h.2)
Shows-same i j Claim.dropped e f g h = (e ∙ h.0, f ∙ h.1, g ∙ h.2)
Shows-same i j (Claim.shared n) e f g h = (e ∙ h.0, f ∙ h.1, g ∙ h.2)

Follows-Shown :
    (i : OwnershipInfo) (o : Outcome) (c : Claim) (r : Option Claim)
    → Shows i c
    → Follows i o r
    → Shown o.info
Follows-Shown i o c none h f = (c, subst (λ (j : OwnershipInfo). Shows j c) (sym f.1) h)
Follows-Shown i o c (some d) h f = (d, f.1)

pub mark_moved-Shown :
    (name : Bytes) (loc : SourceLocation) (i : OwnershipInfo)
    → Shown i
    → Shown (mark_moved name loc i).info
mark_moved-Shown name loc i (c, h) = elim (Bool-cases i.is_copy_type) [
  | inl t ↦ (c, unfold mark_moved in rw t h)
  | inr t ↦
      Follows-Shown i (mark_moved name loc i) c (move_out c) h
        ((borrow-refines name true loc i c h).2 t)
]

pub check_use-info :
    (name : Bytes) (loc : SourceLocation) (i : OwnershipInfo) → (check_use name loc i).info ≡ i
unfolding check_use
check_use-info name loc i = ground arith

pub check_mutation-info :
    (name : Bytes) (loc : SourceLocation) (i : OwnershipInfo) → (check_mutation name loc i).info ≡ i
unfolding check_mutation
check_mutation-info name loc i = elim (Bool-cases i.is_mutable) [
  | inl t ↦ rw t refl
  | inr t ↦ rw t refl
]

pub add_borrow-Shown :
    (name : Bytes) (m : Bool) (loc : SourceLocation) (i : OwnershipInfo)
    → Shown i
    → Shown (add_borrow name m loc i).info
add_borrow-Shown name m loc i (c, h) =
    Follows-Shown i (add_borrow name m loc i) c (borrow m c) h (borrow-refines name m loc i c h).0

pub release_borrow-Shown : (m : Bool) (i : OwnershipInfo) → Shown i → Shown (release_borrow m i)
release_borrow-Shown m i (c, h) = (release m c, (borrow-refines [] m i.decl_location i c h).1)

-- All borrows are given back.
abbrev rest_of : Claim → Claim
rest_of Claim.exclusive = Claim.free
rest_of (Claim.shared n) = Claim.free
rest_of c = c

release_borrows-shape :
    (i : OwnershipInfo) (c : Claim) → Shows (release_borrows (shape i c)) (rest_of c)
unfolding release_borrows
release_borrows-shape i Claim.free = (refl, refl, refl)
release_borrows-shape i Claim.exclusive = (refl, refl, refl)
release_borrows-shape i Claim.moved = (refl, refl, refl)
release_borrows-shape i Claim.dropped = (refl, refl, refl)
release_borrows-shape i (Claim.shared n) = (refl, refl, refl)

pub release_borrows-Shown : (i : OwnershipInfo) → Shown i → Shown (release_borrows i)
release_borrows-Shown i (c, h) = (
  rest_of c,
  subst (λ (j : OwnershipInfo). Shows (release_borrows j) (rest_of c)) (shape-eq i c h)
      (release_borrows-shape i c),
)

-- The end of a scope: a free variable may be dropped.
drop_info-shape : (i : OwnershipInfo) (c : Claim) → Shown (drop_info (shape i c))
unfolding drop_info
drop_info-shape i Claim.free = elim (Bool-cases i.is_copy_type) [
  | inl t ↦ (Claim.free, rw t (refl, refl, refl))
  | inr t ↦ (Claim.dropped, rw t (refl, refl, refl))
]
drop_info-shape i Claim.exclusive = (Claim.exclusive, (refl, refl, refl))
drop_info-shape i Claim.moved = (Claim.moved, (refl, refl, refl))
drop_info-shape i Claim.dropped = (Claim.dropped, (refl, refl, refl))
drop_info-shape i (Claim.shared n) = (Claim.shared n, (refl, refl, refl))

pub drop_info-Shown : (i : OwnershipInfo) → Shown i → Shown (drop_info i)
drop_info-Shown i (c, h) =
    subst (λ (j : OwnershipInfo). Shown (drop_info j)) (shape-eq i c h) (drop_info-shape i c)

pub hold-Shown : (b : Bytes × Bool) (i : OwnershipInfo) → Shown i → Shown (hold b i)
hold-Shown b i (c, h) = (c, Shows-same i (hold b i) c refl refl refl h)

pub clear-Shown : (i : OwnershipInfo) → Shown i → Shown (clear i)
clear-Shown i (c, h) = (c, Shows-same i (clear i) c refl refl refl h)

pub new_info-Shown :
    (name : Bytes) (fl : Flags) (loc : SourceLocation) → Shown (new_info name fl loc)
unfolding new_info
new_info-Shown name fl loc = (Claim.free, (refl, refl, refl))

-- All variables of a scope, and of all scopes.
abbrev pub EntriesShown : Dict OwnershipInfo → Type 0
EntriesShown [] = Unit
EntriesShown ((n, i) ∷ d) = Shown i × EntriesShown d

abbrev pub AllShown : Scopes → Type 0
AllShown [] = Unit
AllShown (d ∷ ds) = EntriesShown d × AllShown ds

pub modify_key-Shown :
    (n : Bytes) (f : OwnershipInfo → OwnershipInfo) (d : Dict OwnershipInfo)
    → ((i : OwnershipInfo) → Shown i → Shown (f i))
    → EntriesShown d
    → EntriesShown (modify_key n f d)
unfolding modify_key
modify_key-Shown n f [] g h = tt
modify_key-Shown n f ((j, i) ∷ d) g h = elim (Bool-cases (bytes_eq j n)) [
  | inl t ↦ rw t (g i h.0, h.1)
  | inr t ↦ rw t (h.0, modify_key-Shown n f d g h.1)
]

pub assign_at-Shown :
    (n : Bytes) (l : ℕ) (f : OwnershipInfo → OwnershipInfo) (ds : Scopes)
    → ((i : OwnershipInfo) → Shown i → Shown (f i))
    → AllShown ds
    → AllShown (assign_at n l f ds)
unfolding assign_at
assign_at-Shown n l f [] g h = tt
assign_at-Shown n l f (d ∷ ds) g h = elim (Bool-cases (length ds == l)) [
  | inl t ↦ rw t (modify_key-Shown n f d g h.0, h.1)
  | inr t ↦ rw t (h.0, assign_at-Shown n l f ds g h.1)
]

pub put_key-Shown :
    (n : Bytes) (i : OwnershipInfo) (d : Dict OwnershipInfo)
    → Shown i
    → EntriesShown d
    → EntriesShown (put_key n i d)
unfolding put_key
put_key-Shown n i [] g h = (g, h)
put_key-Shown n i ((j, k) ∷ d) g h = elim (Bool-cases (bytes_eq j n)) [
  | inl t ↦ rw t (g, h.1)
  | inr t ↦ rw t (h.0, put_key-Shown n i d g h.1)
]
