-- ===== src/Sema/Scope/Tests.antt =====
-- Declarations in nested blocks.
use liva_lang.Base.{true, false, [], none, some, Bytes, codes, bytes_eq, ◌≡◌, ◌≢◌, ◌⊎◌, refl}
use liva_lang.Sema.Scope.Defs.{
  Kind, Symbol, ScopeStack, initial, push_scope, pop_scope, declare, lookup, lookup_local,
  collect_all_names,
}
use liva_lang.Sema.Scope.Laws.{
  declare_lem, Block, finished, declares, nested, run, pop_scope-run, contains, is_some,
  contains-collect_all_names,
}

abbrev local : Bytes → Symbol
local name = record {
  name = name;
  kind = Kind.variable;
  type = none;
  is_mutable = false;
  is_constant = false;
  is_public = false;
  func_decl = none;
  struct_decl = none;
  enum_decl = none;
  protocol_decl = none;
  class_decl = none;
  alias_target = none;
  decl_loc = record { line = 1; column = 1; offset = 0 };
}

abbrev x : Bytes
x = codes "x"

abbrev y : Bytes
y = codes "y"

-- The function `f(x)`, and the body of `f`.
abbrev outside : ScopeStack
outside = push_scope (declare x (local x) initial).0

declare_lem_example :
    (((lookup_local x outside ≡ none)
        × ((declare x (local x) outside).1 ≡ true)
        × (lookup x (declare x (local x) outside).0 ≡ some (local x)))
      ⊎ ((lookup_local x outside ≢ none)
          × ((declare x (local x) outside).1 ≡ false)
          × ((declare x (local x) outside).0 ≡ outside)))
    × (y ≢ x → lookup y (declare x (local x) outside).0 ≡ lookup y outside)
declare_lem_example = declare_lem x y (local x) outside

abbrev body : Block
body = declares x (local x) (nested (declares y (local y) (declares x (local y) finished)) finished)

pop_scope-run_example : pop_scope (run body (push_scope outside)) ≡ outside
pop_scope-run_example = pop_scope-run body outside

contains-collect_all_names_example :
    contains x (collect_all_names outside []) ≡ is_some (lookup x outside)
contains-collect_all_names_example = contains-collect_all_names x outside

-- A second `x` in one scope is refused, and one in an inner scope hides the outer.
shadowing :
    ((declare x (local y) (declare x (local x) initial).0).1 ≡ false)
    × (lookup x (declare x (local y) outside).0 ≡ some (local y))
unfolding declare lookup push_scope codes bytes_eq
shadowing = (refl, refl)
