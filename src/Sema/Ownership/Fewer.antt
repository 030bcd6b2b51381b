-- ===== src/Sema/Ownership/Fewer.antt =====
-- The releases behind a statement leave no variable with more borrows.
use mathlib.Core.Path.{subst}
use liva_lang.Base.{
  ℕ, ◌-◌, ◌≤◌, Bool, true, false, [], ◌∷◌, Option, none, some, Bytes, bytes_eq, bytes_eq_iff, ◌==◌,
  if◌then◌else◌, ◌≡◌, refl, sym, arith, inl, inr, Bool-cases,
}
use liva_lang.Base.Dict.Laws.{map_option}
use liva_lang.Sema.Ownership.Info.{OwnershipInfo, release_borrow}
use liva_lang.Sema.Ownership.Scopes.{Checker, get_info, change, release_one}
use liva_lang.Sema.Ownership.Steps.{Pending, clear, end_borrow, settle}
use liva_lang.Sema.Ownership.Reports.{get_info-change}
use liva_lang.Sema.Ownership.Freed.{get_info-change_other}

-- The immutable borrows of a variable, and whether it has a mutable one
abbrev pub count_of : Option OwnershipInfo → ℕ
count_of none = 0
count_of (some i) = i.borrow_count

abbrev pub flag_of : Option OwnershipInfo → Bool
flag_of none = false
flag_of (some i) = i.has_mutable_borrow

-- No borrow more than before.
abbrev pub IsLess : Option OwnershipInfo → Option OwnershipInfo → Type 0
IsLess o p = (count_of p ≤ count_of o) × (flag_of o ≡ false → flag_of p ≡ false)

-- A borrow of that kind was given back: there is no mutable one, or at least one immutable one less,
-- if there was one.
abbrev pub IsGivenBack : Bool → Option OwnershipInfo → Option OwnershipInfo → Type 0
IsGivenBack true o p = flag_of p ≡ false
IsGivenBack false o p = count_of p ≤ count_of o - 1

IsLess-refl : (o : Option OwnershipInfo) → IsLess o o
IsLess-refl o = (omega arith, λ e. e)

IsLess-trans : (o p q : Option OwnershipInfo) → IsLess o p → IsLess p q → IsLess o q
IsLess-trans o p q h k = (omega (arith, h.0, k.0), λ e. k.1 (h.1 e))

pub IsGivenBack-less :
    (b : Bool) (o p q : Option OwnershipInfo) → IsGivenBack b o p → IsLess p q → IsGivenBack b o q
IsGivenBack-less true o p q h k = k.1 h
IsGivenBack-less false o p q h k = omega (arith, h, k.0)

pub less-IsGivenBack :
    (b : Bool) (o p q : Option OwnershipInfo) → IsLess o p → IsGivenBack b p q → IsGivenBack b o q
less-IsGivenBack true o p q h k = k
less-IsGivenBack false o p q h k = omega (arith, h.0, k)

abbrev Lessens : (OwnershipInfo → OwnershipInfo) → Type 0
Lessens f = (i : OwnershipInfo) → IsLess (some i) (some (f i))

map-IsLess :
    (f : OwnershipInfo → OwnershipInfo) (o : Option OwnershipInfo)
    → Lessens f
    → IsLess o (map_option f o)
map-IsLess f none g = IsLess-refl none
map-IsLess f (some i) g = g i

change-IsLess :
    (n m : Bytes) (f : OwnershipInfo → OwnershipInfo) (c : Checker)
    → Lessens f
    → IsLess (get_info n c) (get_info n (change m f c))
change-IsLess n m f c g = elim (Bool-cases (bytes_eq m n)) [
  | inl t ↦
      subst (λ (k : Bytes). IsLess (get_info n c) (get_info n (change k f c)))
        (sym ((bytes_eq_iff m n).0 t))
        (subst (IsLess (get_info n c)) (sym (get_info-change n f c))
          (map-IsLess f (get_info n c) g))
  | inr t ↦
      subst (IsLess (get_info n c)) (sym (get_info-change_other n m f c t))
        (IsLess-refl (get_info n c))
]

release-Lessens : (b : Bool) → Lessens (release_borrow b)
unfolding release_borrow
release-Lessens true i = (ground arith, λ e. ground (arith, e))
release-Lessens false i = (ground arith, λ e. ground (arith, e))

clear-Lessens : Lessens clear
clear-Lessens i = IsLess-refl (some i)

pub end_borrow-IsLess :
    (n m : Bytes) (o : Option OwnershipInfo) (c : Checker)
    → IsLess (get_info n c) (get_info n (end_borrow o m c))
unfolding release_one
end_borrow-IsLess n m none c = IsLess-refl (get_info n c)
end_borrow-IsLess n m (some i) c =
    let d = change i.borrows_name (release_borrow i.borrows_mutable) c in
    IsLess-trans (get_info n c) (get_info n d) (get_info n (change m clear d))
      (change-IsLess n i.borrows_name (release_borrow i.borrows_mutable) c
        (release-Lessens i.borrows_mutable))
      (change-IsLess n m clear d clear-Lessens)

pub IsLess-if :
    (n : Bytes) (b : Bool) (c d : Checker)
    → IsLess (get_info n c) (get_info n d)
    → IsLess (get_info n c) (get_info n (if b then d else c))
IsLess-if n true c d h = h
IsLess-if n false c d h = IsLess-refl (get_info n c)

pub settle-IsLess :
    (n : Bytes) (i : ℕ) (ps : Pending) (c : Checker)
    → IsLess (get_info n c) (get_info n (settle i ps c))
unfolding settle
settle-IsLess n i [] c = IsLess-refl (get_info n c)
settle-IsLess n i ((k, m) ∷ ps) c =
    let e = end_borrow (get_info m c) m c in
    let d = if k == i then e else c in
    IsLess-trans (get_info n c) (get_info n d) (get_info n (settle i ps d))
      (IsLess-if n (k == i) c e (end_borrow-IsLess n m (get_info m c) c)) (settle-IsLess n i ps d)

map-IsGivenBack :
    (b : Bool) (o : Option OwnershipInfo) → IsGivenBack b o (map_option (release_borrow b) o)
unfolding release_borrow
map-IsGivenBack true none = refl
map-IsGivenBack false none = omega arith
map-IsGivenBack true (some i) = ground arith
map-IsGivenBack false (some i) = ground arith

-- The end of one borrow
pub end_borrow-IsGivenBack :
    (m : Bytes) (j : OwnershipInfo) (c : Checker)
    → IsGivenBack j.borrows_mutable
        (get_info j.borrows_name c)
        (get_info j.borrows_name (end_borrow (some j) m c))
unfolding release_one
end_borrow-IsGivenBack m j c =
    let x = j.borrows_name in
    let b = j.borrows_mutable in
    let d = change x (release_borrow b) c in
    IsGivenBack-less b (get_info x c) (get_info x d) (get_info x (change m clear d))
      (subst (IsGivenBack b (get_info x c)) (sym (get_info-change x (release_borrow b) c))
        (map-IsGivenBack b (get_info x c)))
      (change-IsLess x m clear d clear-Lessens)
