-- ===== src/Ast/Types/Clone.antt =====
-- `cloneTypeRepr` of src/AST/Type.cpp, and which types it copies faithfully.
use liva_lang.Base.{
  Bool, true, false, ◌&&◌, [], ◌∷◌, Option, none, some, Bytes, ◌≡◌, ◌↔◌, refl, arith,
}
use liva_lang.Ast.Types.Repr.{Kind, TypeRepr, Types, nil, cons}

-- The lifetime is set where the original has one; without it, it is empty, too. The size parameter
-- of an array stays that of the constructor, empty; a constant value falls to the default case.
unfoldable mutual
  pub clone : TypeRepr → TypeRepr
  clone (TypeRepr.plain k) = TypeRepr.plain k
  clone (TypeRepr.named n) = TypeRepr.named n
  clone (TypeRepr.reference t m l) = TypeRepr.reference (clone t) m l
  clone (TypeRepr.array t n p) = TypeRepr.array (clone t) n []
  clone (TypeRepr.function ps r) = TypeRepr.function (clone_all ps) (clone r)
  clone (TypeRepr.tuple ts) = TypeRepr.tuple (clone_all ts)
  clone (TypeRepr.generic b ts) = TypeRepr.generic b (clone_all ts)
  clone (TypeRepr.const_value v p) = TypeRepr.plain Kind.const_value
  clone (TypeRepr.optional t) = TypeRepr.optional (clone t)
  clone (TypeRepr.result t e) = TypeRepr.result (clone t) (clone e)
  clone (TypeRepr.dyn_protocol n) = TypeRepr.dyn_protocol n
  clone (TypeRepr.associated_type b n) = TypeRepr.associated_type b n

  pub clone_all : Types → Types
  clone_all nil = nil
  clone_all (cons t ts) = cons (clone t) (clone_all ts)

-- `cloneTypeRepr`, on a pointer that may be null
unfoldable pub clone_type_repr : Option TypeRepr → Option TypeRepr
unfolding clone
clone_type_repr none = none
clone_type_repr (some t) = some (clone t)

abbrev pub is_nil : Bytes → Bool
is_nil [] = true
is_nil (b ∷ bs) = false

-- No part of the type is a constant value, or an array sized by a constant parameter.
unfoldable mutual
  pub is_const_free : TypeRepr → Bool
  is_const_free (TypeRepr.plain k) = true
  is_const_free (TypeRepr.named n) = true
  is_const_free (TypeRepr.reference t m l) = is_const_free t
  is_const_free (TypeRepr.array t n p) = is_nil p && is_const_free t
  is_const_free (TypeRepr.function ps r) = are_const_free ps && is_const_free r
  is_const_free (TypeRepr.tuple ts) = are_const_free ts
  is_const_free (TypeRepr.generic b ts) = are_const_free ts
  is_const_free (TypeRepr.const_value v p) = false
  is_const_free (TypeRepr.optional t) = is_const_free t
  is_const_free (TypeRepr.result t e) = is_const_free t && is_const_free e
  is_const_free (TypeRepr.dyn_protocol n) = true
  is_const_free (TypeRepr.associated_type b n) = true

  pub are_const_free : Types → Bool
  are_const_free nil = true
  are_const_free (cons t ts) = is_const_free t && are_const_free ts

mutual
  unfolding clone clone_all is_const_free are_const_free

  clone-same : (t : TypeRepr) → is_const_free t ≡ true → clone t ≡ t
  clone-same (TypeRepr.plain k) h = refl
  clone-same (TypeRepr.named n) h = refl
  clone-same (TypeRepr.reference t m l) h = cc (clone-same t h)
  clone-same (TypeRepr.array t n []) h = cc (clone-same t h)
  clone-same (TypeRepr.array t n (b ∷ p)) h = cc
  clone-same (TypeRepr.function ps r) h = ground (arith, clone_all-same ps, clone-same r)
  clone-same (TypeRepr.tuple ts) h = cc (clone_all-same ts h)
  clone-same (TypeRepr.generic b ts) h = cc (clone_all-same ts h)
  clone-same (TypeRepr.const_value v p) h = cc
  clone-same (TypeRepr.optional t) h = cc (clone-same t h)
  clone-same (TypeRepr.result t e) h = ground (arith, clone-same t, clone-same e)
  clone-same (TypeRepr.dyn_protocol n) h = refl
  clone-same (TypeRepr.associated_type b n) h = refl

  clone_all-same : (ts : Types) → are_const_free ts ≡ true → clone_all ts ≡ ts
  clone_all-same nil h = refl
  clone_all-same (cons t ts) h = ground (arith, clone-same t, clone_all-same ts)

mutual
  unfolding clone clone_all is_const_free are_const_free

  same-const_free : (t : TypeRepr) → clone t ≡ t → is_const_free t ≡ true
  same-const_free (TypeRepr.plain k) h = refl
  same-const_free (TypeRepr.named n) h = refl
  same-const_free (TypeRepr.reference t m l) h = same-const_free t (cc)
  same-const_free (TypeRepr.array t n []) h = same-const_free t (cc)
  same-const_free (TypeRepr.array t n (b ∷ p)) h = cc
  same-const_free (TypeRepr.function ps r) h = rw (sames-const_free ps (cc), same-const_free r (cc))
  same-const_free (TypeRepr.tuple ts) h = sames-const_free ts (cc)
  same-const_free (TypeRepr.generic b ts) h = sames-const_free ts (cc)
  same-const_free (TypeRepr.const_value v p) h = cc
  same-const_free (TypeRepr.optional t) h = same-const_free t (cc)
  same-const_free (TypeRepr.result t e) h = rw (same-const_free t (cc), same-const_free e (cc))
  same-const_free (TypeRepr.dyn_protocol n) h = refl
  same-const_free (TypeRepr.associated_type b n) h = refl

  sames-const_free : (ts : Types) → clone_all ts ≡ ts → are_const_free ts ≡ true
  sames-const_free nil h = refl
  sames-const_free (cons t ts) h = rw (same-const_free t (cc), sames-const_free ts (cc))

-- A clone is the type that was cloned exactly if that type has no constant value and no array
-- sized by a constant parameter.
pub clone-eq-self_iff : (t : TypeRepr) → (clone t ≡ t) ↔ (is_const_free t ≡ true)
clone-eq-self_iff t = (same-const_free t, clone-same t)
