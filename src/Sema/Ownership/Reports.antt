-- ===== src/Sema/Ownership/Reports.antt =====
-- What a variable of the stack goes through: moves, uses and borrows.
use mathlib.Core.List.{append-nil}
use mathlib.Core.Path.{subst}
use liva_lang.Base.{
  ℕ, Bool, true, false, List, [], ◌∷◌, ◌++◌, Option, none, some, Bytes, length, ◌==◌, ◌≡◌, ◌≢◌,
  refl, sym, ap, ◌∙◌, arith, inl, inr, Bool-cases,
}
use liva_lang.Base.Dict.{Dict, lookup_key}
use liva_lang.Base.Dict.Laws.{lookup_modify_same, map_option}
use liva_lang.Lexer.State.{SourceLocation}
use liva_lang.Sema.Ownership.Info.{
  OwnershipInfo, OwnershipState, DiagId, Outcome, Report, say, mark_moved, check_use, add_borrow,
  release_borrow,
}
use liva_lang.Sema.Ownership.Info.Laws.{Claim, Shows, Follows, borrow, release, borrow-refines}
use liva_lang.Sema.Ownership.Scopes.{
  Scopes, Checker, deref, assign_at, follow, get_info, change, change_at, report, act, act_on, move,
  use_variable, borrow_variable, release_one,
}

pub length-assign_at :
    (name : Bytes) (l : ℕ) (f : OwnershipInfo → OwnershipInfo) (ds : Scopes)
    → length (assign_at name l f ds) ≡ length ds
unfolding assign_at
length-assign_at name l f [] = refl
length-assign_at name l f (d ∷ ds) = ground (arith, length-assign_at name l f ds)

deref-assign_at :
    (name : Bytes) (l : ℕ) (f : OwnershipInfo → OwnershipInfo) (ds : Scopes)
    → deref name l (assign_at name l f ds) ≡ map_option f (deref name l ds)
unfolding deref assign_at
deref-assign_at name l f [] = refl
deref-assign_at name l f (d ∷ ds) = elim (Bool-cases (length ds == l)) [
  | inl t ↦ rw (t, t) (lookup_modify_same name f d)
  | inr t ↦ rw (t, length-assign_at name l f ds, t) (deref-assign_at name l f ds)
]

follow-change_at :
    (p : Option ℕ) (name : Bytes) (f : OwnershipInfo → OwnershipInfo) (c : Checker)
    → follow name p (change_at p name f c).scopes ≡ map_option f (follow name p c.scopes)
follow-change_at none name f c = refl
follow-change_at (some l) name f c = deref-assign_at name l f c.scopes

pub change_at-flat :
    (p : Option ℕ) (name : Bytes) (f : OwnershipInfo → OwnershipInfo) (c : Checker)
    → (change_at p name f c).flat ≡ c.flat
change_at-flat none name f c = refl
change_at-flat (some l) name f c = refl

pub get_info-change :
    (name : Bytes) (f : OwnershipInfo → OwnershipInfo) (c : Checker)
    → get_info name (change name f c) ≡ map_option f (get_info name c)
unfolding get_info change
get_info-change name f c =
    let p = lookup_key name c.flat in
    ap (λ (flat : Dict ℕ). follow name (lookup_key name flat) (change_at p name f c).scopes)
      (change_at-flat p name f c)
    ∙ follow-change_at p name f c

change_at-reports :
    (p : Option ℕ) (name : Bytes) (f : OwnershipInfo → OwnershipInfo) (c : Checker)
    → (change_at p name f c).reports ≡ c.reports
change_at-reports none name f c = refl
change_at-reports (some l) name f c = refl

get_info-report :
    (name : Bytes) (rs : List Report) (c : Checker) → get_info name (report rs c) ≡ get_info name c
unfolding get_info report
get_info-report name rs c = refl

-- An operation on a variable that is found.
act-found :
    (name : Bytes) (f : OwnershipInfo → Outcome) (c : Checker) (i : OwnershipInfo)
    → get_info name c ≡ some i
    → (get_info name (act name f c).0 ≡ some (f i).info)
      × ((act name f c).0.reports ≡ c.reports ++ (f i).reports)
      × ((act name f c).1 ≡ (f i).allowed)
act-found name f c i e =
    let g : OwnershipInfo → OwnershipInfo = λ j. (f j).info in
    unfold act in
    subst
      (λ (o : Option OwnershipInfo).
        (get_info name (act_on o name f c).0 ≡ some (f i).info)
        × ((act_on o name f c).0.reports ≡ c.reports ++ (f i).reports)
        × ((act_on o name f c).1 ≡ (f i).allowed))
      (sym e)
      (
        get_info-report name (f i).reports (change name g c)
            ∙ get_info-change name g c
            ∙ ap (map_option g) e,
        unfold report change in
            ap (λ (rs : List Report). rs ++ (f i).reports)
              (change_at-reports (lookup_key name c.flat) name g c),
        refl,
      )

-- The first move of a variable that is not `Copy`.
abbrev moved_at : SourceLocation → OwnershipInfo → OwnershipInfo
moved_at loc i = record i { state = OwnershipState.moved; last_move_location = loc }

mark_moved-free :
    (name : Bytes) (loc : SourceLocation) (i : OwnershipInfo)
    → i.is_copy_type ≡ false
    → Shows i Claim.free
    → ((mark_moved name loc i).info ≡ moved_at loc i) × ((mark_moved name loc i).reports ≡ [])
unfolding mark_moved
mark_moved-free name loc i k h = rw (k, h.0, h.1, h.2) (refl, refl)

move-free :
    (name : Bytes) (loc : SourceLocation) (c : Checker) (i : OwnershipInfo)
    → get_info name c ≡ some i
    → i.is_copy_type ≡ false
    → Shows i Claim.free
    → (get_info name (move name loc c) ≡ some (moved_at loc i))
      × ((move name loc c).reports ≡ c.reports)
unfolding move
move-free name loc c i e k h =
    let a = act-found name (mark_moved name loc) c i e in
    let m = mark_moved-free name loc i k h in
    (a.0 ∙ ap some m.0, a.1 ∙ ap (λ (rs : List Report). c.reports ++ rs) m.1 ∙ append-nil c.reports)

added : {a b d r q : List Report} → a ≡ b ++ r → b ≡ d → r ≡ q → a ≡ d ++ q
added e f g = rw (e, f, g) refl

check_use-moved :
    (name : Bytes) (l1 l2 : SourceLocation) (i : OwnershipInfo)
    → (check_use name l2 (moved_at l1 i)).reports
      ≡ say l2 DiagId.err_use_after_move name
        ∷ say l1 DiagId.note_moved_here name
        ∷ say l2 DiagId.note_consider_ref name
        ∷ []
unfolding check_use
check_use-moved name l1 l2 i = refl

mark_moved-moved :
    (name : Bytes) (l1 l2 : SourceLocation) (i : OwnershipInfo)
    → i.is_copy_type ≡ false
    → (mark_moved name l2 (moved_at l1 i)).reports
      ≡ say l2 DiagId.err_double_move name ∷ say l1 DiagId.note_moved_here name ∷ []
unfolding mark_moved
mark_moved-moved name l1 l2 i k = rw k refl

-- After the move of an unborrowed variable that is not `Copy`, its use is reported with the place of
-- the move and the advice to borrow, and a second move is reported with the place of the first.
pub use_variable-move :
    (name : Bytes) (l1 l2 : SourceLocation) (c : Checker) (i : OwnershipInfo)
    → get_info name c ≡ some i
    → i.is_copy_type ≡ false
    → Shows i Claim.free
    → ((use_variable name l2 (move name l1 c)).reports
        ≡ c.reports
          ++ (say l2 DiagId.err_use_after_move name
              ∷ say l1 DiagId.note_moved_here name
              ∷ say l2 DiagId.note_consider_ref name
              ∷ []))
      × ((move name l2 (move name l1 c)).reports
          ≡ c.reports
            ++ (say l2 DiagId.err_double_move name ∷ say l1 DiagId.note_moved_here name ∷ []))
unfolding use_variable move
use_variable-move name l1 l2 c i e k h =
    let p = move-free name l1 c i e k h in
    let used = act-found name (check_use name l2) (move name l1 c) (moved_at l1 i) p.0 in
    let again = act-found name (mark_moved name l2) (move name l1 c) (moved_at l1 i) p.0 in
    (
      added used.1 p.1 (check_use-moved name l1 l2 i),
      added again.1 p.1 (mark_moved-moved name l1 l2 i k),
    )

-- A borrow that is given back leaves the claim that was there.
release-borrow :
    (m : Bool) (c d : Claim) → borrow m c ≡ some d → c ≢ Claim.dropped → release m d ≡ c
release-borrow true Claim.free d e h = ground (arith, e)
release-borrow false Claim.free d e h = ground (arith, e)
release-borrow m Claim.moved d e h = ground (arith, e)
release-borrow true Claim.exclusive d e h = ground (arith, e)
release-borrow false Claim.exclusive d e h = ground (arith, e)
release-borrow true (Claim.shared n) d e h = ground (arith, e)
release-borrow false (Claim.shared n) d e h = ground (arith, e)
release-borrow m Claim.dropped d e h = absurd (h refl)

-- A borrow that `addBorrow` allows and `releaseBorrow` gives back leaves the variable with the claim
-- that it had, if it was not dropped: with its state, its count and its flag.
pub release_one-borrow_variable :
    (name : Bytes) (m : Bool) (loc : SourceLocation) (c : Checker) (i : OwnershipInfo)
    (cl d : Claim)
    → get_info name c ≡ some i
    → Shows i cl
    → borrow m cl ≡ some d
    → cl ≢ Claim.dropped
    → (j : OwnershipInfo) × (get_info name (release_one name m (borrow_variable name m loc c).0)
        ≡ some j)
      × Shows j cl
unfolding release_one borrow_variable
release_one-borrow_variable name m loc c i cl d e h b n =
    let a = act-found name (add_borrow name m loc) c i e in
    let j : OwnershipInfo = (add_borrow name m loc i).info in
    let f : Follows i (add_borrow name m loc i) (some d) =
      subst (Follows i (add_borrow name m loc i)) b (borrow-refines name m loc i cl h).0 in
    (
      release_borrow m j,
      get_info-change name (release_borrow m) _ ∙ ap (map_option (release_borrow m)) a.0,
      subst (Shows (release_borrow m j)) (release-borrow m cl d b n)
          (borrow-refines name m loc j d f.1).1,
    )
