-- ===== src/Sema/Lifetime/Within.antt =====
-- Variables up to a depth.
use liva_lang.Base.{ℕ, ◌+◌, ◌≤◌, [], ◌∷◌, Bytes, bytes_eq, ◌==◌, arith, inl, inr, Bool-cases}
use liva_lang.Base.Dict.{Dict, put_key, modify_key}
use liva_lang.Sema.Lifetime.{VarInfo, set_target, erase_depth}

-- No variable is deeper than `d`.
abbrev pub AllWithin : ℕ → Dict VarInfo → Type 0
AllWithin d [] = Unit
AllWithin d ((n, v) ∷ vs) = (v.scope_depth ≤ d) × AllWithin d vs

pub AllWithin-suc : (d : ℕ) (vs : Dict VarInfo) → AllWithin d vs → AllWithin (d + 1) vs
AllWithin-suc d [] h = tt
AllWithin-suc d ((n, v) ∷ vs) h = (omega (arith, h.0), AllWithin-suc d vs h.1)

pub AllWithin-put_key :
    (d : ℕ) (k : Bytes) (v : VarInfo) (vs : Dict VarInfo)
    → v.scope_depth ≤ d
    → AllWithin d vs
    → AllWithin d (put_key k v vs)
unfolding put_key
AllWithin-put_key d k v [] g h = (g, tt)
AllWithin-put_key d k v ((j, w) ∷ vs) g h = elim (Bool-cases (bytes_eq j k)) [
  | inl t ↦ rw t (g, h.1)
  | inr t ↦ rw t (h.0, AllWithin-put_key d k v vs g h.1)
]

pub AllWithin-modify_key :
    (d : ℕ) (k t : Bytes) (vs : Dict VarInfo)
    → AllWithin d vs
    → AllWithin d (modify_key k (set_target t) vs)
unfolding modify_key
AllWithin-modify_key d k u [] h = tt
AllWithin-modify_key d k u ((j, w) ∷ vs) h = elim (Bool-cases (bytes_eq j k)) [
  | inl t ↦ rw t (h.0, h.1)
  | inr t ↦ rw t (h.0, AllWithin-modify_key d k u vs h.1)
]

pub AllWithin-erase_depth :
    (d : ℕ) (vs : Dict VarInfo) → AllWithin (d + 1) vs → AllWithin d (erase_depth (d + 1) vs)
unfolding erase_depth
AllWithin-erase_depth d [] h = tt
AllWithin-erase_depth d ((n, v) ∷ vs) h = elim (Bool-cases (v.scope_depth == d + 1)) [
  | inl t ↦ rw t (AllWithin-erase_depth d vs h.1)
  | inr t ↦ rw t (ground (arith, h.0, t), AllWithin-erase_depth d vs h.1)
]
