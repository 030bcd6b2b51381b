-- ===== src/Sema/Ownership/Freed.antt =====
-- The bindings that hold no borrow once the releases of a statement are done.
use mathlib.Core.Path.{subst}
use liva_lang.Base.{
  ℕ, Bool, true, false, [], ◌∷◌, Option, none, some, Bytes, bytes_eq, bytes_eq_iff, ◌==◌,
  if◌then◌else◌, ◌≡◌, refl, sym, ap, ◌∙◌, arith, ◌⊎◌, inl, inr, Bool-cases,
}
use liva_lang.Base.Dict.{Dict, lookup_key}
use liva_lang.Base.Dict.Laws.{lookup_modify_other, map_option}
use liva_lang.Sema.Ownership.Info.{OwnershipInfo, release_borrow}
use liva_lang.Sema.Ownership.Scopes.{
  Scopes, Checker, deref, assign_at, follow, get_info, change, change_at, release_one,
}
use liva_lang.Sema.Ownership.Steps.{Pending, holds, clear, end_borrow, settle}
use liva_lang.Sema.Ownership.Reports.{length-assign_at, change_at-flat, get_info-change}

deref-assign_other :
    (n m : Bytes) (k l : ℕ) (f : OwnershipInfo → OwnershipInfo) (ds : Scopes)
    → bytes_eq m n ≡ false
    → deref n k (assign_at m l f ds) ≡ deref n k ds
unfolding deref assign_at
deref-assign_other n m k l f [] h = refl
deref-assign_other n m k l f (d ∷ ds) h = ground (
  arith,
  length-assign_at m l f ds,
  lookup_modify_other n m f d h,
  deref-assign_other n m k l f ds h,
)

follow-assign_other :
    (n m : Bytes) (p : Option ℕ) (l : ℕ) (f : OwnershipInfo → OwnershipInfo) (ds : Scopes)
    → bytes_eq m n ≡ false
    → follow n p (assign_at m l f ds) ≡ follow n p ds
follow-assign_other n m none l f ds h = refl
follow-assign_other n m (some k) l f ds h = deref-assign_other n m k l f ds h

follow-change_other :
    (n m : Bytes) (p q : Option ℕ) (f : OwnershipInfo → OwnershipInfo) (c : Checker)
    → bytes_eq m n ≡ false
    → follow n p (change_at q m f c).scopes ≡ follow n p c.scopes
follow-change_other n m p none f c h = refl
follow-change_other n m p (some l) f c h = follow-assign_other n m p l f c.scopes h

pub get_info-change_other :
    (n m : Bytes) (f : OwnershipInfo → OwnershipInfo) (c : Checker)
    → bytes_eq m n ≡ false
    → get_info n (change m f c) ≡ get_info n c
unfolding get_info change
get_info-change_other n m f c h =
    let q = lookup_key m c.flat in
    ap (λ (flat : Dict ℕ). follow n (lookup_key n flat) (change_at q m f c).scopes)
      (change_at-flat q m f c)
    ∙ follow-change_other n m (lookup_key n c.flat) q f c h

-- The binding, if there is one, holds no borrow.
abbrev pub IsFree : Option OwnershipInfo → Type 0
IsFree o = holds o ≡ false

abbrev KeepsFree : (OwnershipInfo → OwnershipInfo) → Type 0
KeepsFree f = (i : OwnershipInfo) → IsFree (some i) → IsFree (some (f i))

map-IsFree :
    (f : OwnershipInfo → OwnershipInfo) (o : Option OwnershipInfo)
    → KeepsFree f
    → IsFree o
    → IsFree (map_option f o)
map-IsFree f none g h = refl
map-IsFree f (some i) g h = g i h

change-IsFree :
    (n m : Bytes) (f : OwnershipInfo → OwnershipInfo) (c : Checker)
    → KeepsFree f
    → IsFree (get_info n c)
    → IsFree (get_info n (change m f c))
change-IsFree n m f c g h = elim (Bool-cases (bytes_eq m n)) [
  | inl t ↦
      subst (λ (k : Bytes). IsFree (get_info n (change k f c))) (sym ((bytes_eq_iff m n).0 t))
        (ap holds (get_info-change n f c) ∙ map-IsFree f (get_info n c) g h)
  | inr t ↦ ap holds (get_info-change_other n m f c t) ∙ h
]

clear-IsFree : (i : OwnershipInfo) → IsFree (some (clear i))
clear-IsFree i = ground arith

release-KeepsFree : (m : Bool) → KeepsFree (release_borrow m)
unfolding release_borrow
release-KeepsFree true i h = ground (arith, h)
release-KeepsFree false i h = ground (arith, h)

map_clear-IsFree : (o : Option OwnershipInfo) → IsFree (map_option clear o)
map_clear-IsFree none = refl
map_clear-IsFree (some i) = clear-IsFree i

end_borrow-same :
    (n : Bytes) (o : Option OwnershipInfo) (c : Checker)
    → get_info n c ≡ o
    → IsFree (get_info n (end_borrow o n c))
end_borrow-same n none c e = ap holds e
end_borrow-same n (some i) c e =
    ap holds (get_info-change n clear (release_one i.borrows_name i.borrows_mutable c))
    ∙ map_clear-IsFree _

end_borrow-IsFree :
    (n m : Bytes) (o : Option OwnershipInfo) (c : Checker)
    → IsFree (get_info n c)
    → IsFree (get_info n (end_borrow o m c))
unfolding release_one
end_borrow-IsFree n m none c h = h
end_borrow-IsFree n m (some i) c h =
    change-IsFree n m clear _ (λ j k. clear-IsFree j)
      (change-IsFree n i.borrows_name _ c (release-KeepsFree i.borrows_mutable) h)

IsFree-if :
    (n : Bytes) (b : Bool) (c d : Checker)
    → IsFree (get_info n c)
    → IsFree (get_info n d)
    → IsFree (get_info n (if b then c else d))
IsFree-if n true c d h k = h
IsFree-if n false c d h k = k

settle-IsFree :
    (n : Bytes) (i : ℕ) (ps : Pending) (c : Checker)
    → IsFree (get_info n c)
    → IsFree (get_info n (settle i ps c))
unfolding settle
settle-IsFree n i [] c h = h
settle-IsFree n i ((k, m) ∷ ps) c h =
    settle-IsFree n i ps _ (IsFree-if n (k == i) _ c (end_borrow-IsFree n m (get_info m c) c h) h)

-- An entry of `pendingRelease`
abbrev pub Has : ℕ → Bytes → Pending → Type 0
Has k name [] = ⊥
Has k name ((j, n) ∷ ps) = ((j ≡ k) × (n ≡ name)) ⊎ Has k name ps

-- Behind the releases of statement `i`, the bindings of its entries hold no borrow.
pub settle-holds :
    (n : Bytes) (i : ℕ) (ps : Pending) (c : Checker)
    → Has i n ps
    → holds (get_info n (settle i ps c)) ≡ false
unfolding settle
settle-holds n i [] c h = absurd h
settle-holds n i ((k, m) ∷ ps) c (inl e) =
    let now : (k == i) ≡ true = ground (arith, e.0) in
    settle-IsFree n i ps _ (
      subst (λ (b : Bool). IsFree (get_info n (if b then end_borrow (get_info m c) m c else c)))
        (sym now)
        (subst (λ (x : Bytes). IsFree (get_info n (end_borrow (get_info x c) x c))) (sym e.1)
          (end_borrow-same n (get_info n c) c refl)))
settle-holds n i ((k, m) ∷ ps) c (inr h) = settle-holds n i ps _ h
