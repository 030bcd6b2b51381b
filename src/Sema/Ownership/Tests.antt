-- ===== src/Sema/Ownership/Tests.antt =====
-- Small programs and stacks.
use liva_lang.Base.{ℕ, true, false, ◌&&◌, not, [], ◌∷◌, none, some, Bytes, ◌≡◌, ◌≢◌, refl}
use liva_lang.Base.Dict.{lookup_key, keys}
use liva_lang.Lexer.State.{SourceLocation}
use liva_lang.Ast.Types.Repr.{TypeRepr}
use liva_lang.Ast.Nodes.{Node, Info, absent, present, Nodes, nil, cons, Param}
use liva_lang.Ast.Walk.{children}
use liva_lang.Sema.Ownership.Info.{
  OwnershipInfo, OwnershipState, DiagId, say, add_borrow, release_borrow, mark_moved,
}
use liva_lang.Sema.Ownership.Info.Laws.{Claim, Shows, Follows, borrow-refines}
use liva_lang.Sema.Ownership.Scopes.{
  Checker, Flags, deref, get_info, move, use_variable, borrow_variable, release_one,
}
use liva_lang.Sema.Ownership.Types.{Setting, contains, entry, param_is_dyn_protocol, is_copy}
use liva_lang.Sema.Ownership.Visit.{visit, leave, check}
use liva_lang.Sema.Ownership.Keeps.{Keeps}
use liva_lang.Sema.Ownership.Keeps.Visit.{visit-Keeps}
use liva_lang.Sema.Ownership.Check.{
  new_checker, visited, check-deref, IsExclusive, visit-IsExclusive, get_info-leave,
}
use liva_lang.Sema.Ownership.Reports.{use_variable-move, release_one-borrow_variable}
use liva_lang.Sema.Ownership.Passive.{Passive, visit_each, visit-children}
use liva_lang.Sema.Ownership.Dyn.{
  candidates, is_cons, all_are_dyn, param_is_dyn_protocol-candidates,
}

abbrev at : ℕ → SourceLocation
at n = record { line = n; column = 1; offset = 0 }

abbrev on : ℕ → Info
on n = record { start = at n; resolved = none }

abbrev a : Bytes
a = 97 ∷ []

abbrev b : Bytes
b = 98 ∷ []

abbrev plain : Flags
plain = record { mutable = true; copy = false; drop = true; class = false; pattern_binding = false }

-- `a`, which owns its value
abbrev info_a : OwnershipInfo
info_a = record {
  name = a;
  state = OwnershipState.owned;
  is_mutable = true;
  is_copy_type = false;
  is_drop_type = true;
  is_class_type = false;
  decl_location = at 1;
  last_move_location = at 0;
  last_borrow_location = at 0;
  borrow_count = 0;
  has_mutable_borrow = false;
  is_ref_binding = false;
  is_pattern_binding = false;
  borrows_name = [];
  borrows_mutable = false;
}

-- `b`, which holds a mutable borrow of `a`
abbrev info_b : OwnershipInfo
info_b = record info_a { name = b; is_ref_binding = true; borrows_name = a; borrows_mutable = true }

-- One scope with `a`
abbrev one_variable : Checker
one_variable = record {
  scopes = ((a, info_a) ∷ []) ∷ [];
  flat = (a, 0) ∷ [];
  type_params = [];
  last_ref_borrow = ([], false);
  reports = [];
}

-- `P` is a Drop type.
abbrev setting : Setting
setting = record { class_names = []; drop_type_names = (80 ∷ []) ∷ []; funcs = [] }

-- `{ let b: P = a; ref mut a }`
abbrev program : Node
program = Node.block_stmt (on 2) (
    cons
      (Node.var_decl (on 3) b (some (TypeRepr.named (80 ∷ []))) false
        (present (Node.identifier (on 3) a)))
      (cons (Node.expr_stmt (on 4) (Node.ref_expr (on 4) (Node.identifier (on 4) a) true)) nil))

-- `var a: P;`
abbrev global : Nodes
global = cons (Node.var_decl (on 1) a (some (TypeRepr.named (80 ∷ []))) true absent) nil

borrow-refines_example :
    Follows info_a (add_borrow a true (at 2) info_a) (some Claim.exclusive)
    × Shows (release_borrow true info_a) Claim.free
    × (info_a.is_copy_type ≡ false → Follows info_a (mark_moved a (at 2) info_a) (some Claim.moved))
borrow-refines_example = borrow-refines a true (at 2) info_a Claim.free (refl, refl, refl)

visit-Keeps_example : Keeps one_variable (visit setting program one_variable)
visit-Keeps_example = visit-Keeps setting program one_variable

check-deref_example :
    (deref a 0 (visited [] ((80 ∷ []) ∷ []) global).scopes ≢ none)
    × ((check [] ((80 ∷ []) ∷ []) global new_checker).scopes ≡ [])
    × (deref a 0 (check [] ((80 ∷ []) ∷ []) global new_checker).scopes ≡ none)
check-deref_example = check-deref [] ((80 ∷ []) ∷ []) global a 0 (unfold check lookup_key in refl)

visit-IsExclusive_example :
    IsExclusive (record info_a { state = OwnershipState.moved; last_move_location = at 3 })
visit-IsExclusive_example =
    visit-IsExclusive setting program one_variable a
      (record info_a { state = OwnershipState.moved; last_move_location = at 3 })
      (((Claim.free, (refl, refl, refl)), tt), tt) (unfold get_info visit is_copy in refl)

visit-children_example :
    visit setting (Node.group (on 5) (Node.identifier (on 5) a)) one_variable
    ≡ visit_each setting (children (Node.group (on 5) (Node.identifier (on 5) a))) one_variable
visit-children_example =
    visit-children setting (Node.group (on 5) (Node.identifier (on 5) a)) one_variable
      (Passive.group (on 5) (Node.identifier (on 5) a))

use_variable-move_example :
    ((use_variable a (at 3) (move a (at 2) one_variable)).reports
      ≡ say (at 3) DiagId.err_use_after_move a
        ∷ say (at 2) DiagId.note_moved_here a
        ∷ say (at 3) DiagId.note_consider_ref a
        ∷ [])
    × ((move a (at 3) (move a (at 2) one_variable)).reports
        ≡ say (at 3) DiagId.err_double_move a ∷ say (at 2) DiagId.note_moved_here a ∷ [])
use_variable-move_example =
    use_variable-move a (at 2) (at 3) one_variable info_a (unfold get_info in refl) refl
      (refl, refl, refl)

release_one-borrow_variable_example :
    (j : OwnershipInfo) × (get_info a
        (release_one a true (borrow_variable a true (at 2) one_variable).0)
      ≡ some j)
    × Shows j Claim.free
release_one-borrow_variable_example =
    release_one-borrow_variable a true (at 2) one_variable info_a Claim.free Claim.exclusive
      (unfold get_info in refl) (refl, refl, refl) refl (λ e. cc)

get_info-leave_example : get_info a (leave one_variable) ≡ none
get_info-leave_example = get_info-leave a one_variable (unfold contains keys in refl)

-- `f(a: dyn G)`
abbrev dyn_param : Param
dyn_param = record {
  name = a;
  type = some (TypeRepr.dyn_protocol b);
  is_ref = false;
  is_mut_ref = false;
  is_self = false;
  is_variadic = false;
  location = at 1;
}

abbrev with_func : Setting
with_func = record setting { funcs = (b, (dyn_param ∷ []) ∷ []) ∷ [] }

param_is_dyn_protocol-candidates_example : param_is_dyn_protocol with_func b false 0 ≡ (
    not false
    && (is_cons (candidates (entry (lookup_key b with_func.funcs)) 0)
        && all_are_dyn (candidates (entry (lookup_key b with_func.funcs)) 0)))
param_is_dyn_protocol-candidates_example = param_is_dyn_protocol-candidates with_func b false 0

-- `var b = ref a`
abbrev borrow_statement : Node
borrow_statement =
    Node.var_decl (on 3) b none false
      (present (Node.ref_expr (on 3) (Node.identifier (on 3) a) false))

-- `var b = ref a; b` in the block
abbrev borrowing : Nodes
borrowing = cons borrow_statement (cons (Node.expr_stmt (on 4) (Node.identifier (on 4) b)) nil)

-- `a`, mutably borrowed by `b`
abbrev lent : Checker
lent = record one_variable {
  scopes =
      ((a, record info_a { state = OwnershipState.borrowed_mutable; has_mutable_borrow = true })
        ∷ (b, info_b)
        ∷ [])
      ∷ [];
  flat = (a, 0) ∷ (b, 0) ∷ [];
}
