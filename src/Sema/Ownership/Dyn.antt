-- ===== src/Sema/Ownership/Dyn.antt =====
-- `paramIsDynProtocol` and its candidates.
use liva_lang.Base.{
  ℕ, Bool, true, false, ◌&&◌, ◌||◌, not, List, [], ◌∷◌, Option, none, some, get_elem?,
  if◌then◌else◌, Bytes, ◌≡◌, arith, inl, inr, Bool-cases,
}
use liva_lang.Base.Dict.{lookup_key}
use liva_lang.Ast.Nodes.{Param}
use liva_lang.Sema.Ownership.Types.{
  Setting, all_dyn, has_self, is_dyn, judge, entry, param_is_dyn_protocol,
}

-- The parameters that the argument may be passed to: those of the free functions that have so many.
abbrev pub to_list : Option Param → List Param → List Param
to_list none ps = ps
to_list (some p) ps = p ∷ ps

unfoldable pub candidates : List (List Param) → ℕ → List Param
candidates [] k = []
candidates (ps ∷ fs) k =
    let rest = candidates fs k in if has_self ps then rest else to_list (get_elem? ps k) rest

abbrev pub all_are_dyn : List Param → Bool
all_are_dyn [] = true
all_are_dyn (p ∷ ps) = is_dyn p.type && all_are_dyn ps

abbrev pub is_cons : List Param → Bool
is_cons [] = false
is_cons (p ∷ ps) = true

judge-candidates :
    (o : Option Param) (saw : Bool) (rest : Bool → Bool) (ps : List Param)
    → ((b : Bool) → rest b ≡ (all_are_dyn ps && (b || is_cons ps)))
    → judge o saw rest ≡ (all_are_dyn (to_list o ps) && (saw || is_cons (to_list o ps)))
judge-candidates none saw rest ps h = h saw
judge-candidates (some p) saw rest ps h = ground (arith, h true)

all_dyn-candidates :
    (fs : List (List Param)) (k : ℕ) (saw : Bool)
    → all_dyn fs k saw ≡ (all_are_dyn (candidates fs k) && (saw || is_cons (candidates fs k)))
unfolding all_dyn candidates
all_dyn-candidates [] k saw = ground arith
all_dyn-candidates (ps ∷ fs) k saw = elim (Bool-cases (has_self ps)) [
  | inl t ↦ rw t (all_dyn-candidates fs k saw)
  | inr t ↦ rw t (
      judge-candidates (get_elem? ps k) saw (all_dyn fs k) (candidates fs k)
        (all_dyn-candidates fs k))
]

-- `paramIsDynProtocol` answers yes exactly if the call is free, some function of that name without a
-- `self` has a parameter for the argument, and in all those functions that parameter is `dyn`.
pub param_is_dyn_protocol-candidates :
    (s : Setting) (name : Bytes) (is_member_call : Bool) (k : ℕ)
    → param_is_dyn_protocol s name is_member_call k ≡ (
        not is_member_call
        && (is_cons (candidates (entry (lookup_key name s.funcs)) k)
            && all_are_dyn (candidates (entry (lookup_key name s.funcs)) k)))
unfolding param_is_dyn_protocol
param_is_dyn_protocol-candidates s name is_member_call k =
    ground (arith, all_dyn-candidates (entry (lookup_key name s.funcs)) k false)
