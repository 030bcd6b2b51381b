-- ===== src/Sema/Ownership/Scopes.antt =====
-- The variables of `OwnershipChecker`: the stack of scopes, and `allVariables_`, which points into it.
use liva_lang.Base.{
  ℕ, Bool, true, false, ◌&&◌, not, List, [], ◌∷◌, ◌++◌, Option, none, some, Bytes, length, ◌==◌,
  if◌then◌else◌,
}
use liva_lang.Base.Dict.{Dict, lookup_key, put_key, modify_key, erase_key, keys}
use liva_lang.Lexer.State.{SourceLocation}
use liva_lang.Ast.Patterns.{Pattern, Patterns}
use liva_lang.Sema.Ownership.Info.{
  OwnershipInfo, OwnershipState, Outcome, Report, mark_moved, check_use, check_mutation, add_borrow,
  release_borrows, release_borrow, drop_info,
}

abbrev pub Scopes : Type 0
Scopes = List (Dict OwnershipInfo)

-- `scopes`: the innermost first. `flat`: a name points to its entry in the scope of that number,
-- counted from the outermost, which is 0. `last_ref_borrow`: the name is empty for none.
pub record Checker : Type 0 where
  pub scopes : Scopes
  pub flat : Dict ℕ
  pub type_params : List (List Bytes)
  pub last_ref_borrow : Bytes × Bool
  pub reports : List Report

-- The entry that a pointer means; none if it dangles.
unfoldable pub deref : Bytes → ℕ → Scopes → Option OwnershipInfo
unfolding lookup_key
deref name l [] = none
deref name l (d ∷ ds) = if length ds == l then lookup_key name d else deref name l ds

-- Writing through a pointer
unfoldable pub assign_at : Bytes → ℕ → (OwnershipInfo → OwnershipInfo) → Scopes → Scopes
unfolding modify_key
assign_at name l f [] = []
assign_at name l f (d ∷ ds) =
    if length ds == l then modify_key name f d ∷ ds else d ∷ assign_at name l f ds

abbrev pub follow : Bytes → Option ℕ → Scopes → Option OwnershipInfo
follow name none ds = none
follow name (some l) ds = deref name l ds

-- `getInfo`
unfoldable pub get_info : Bytes → Checker → Option OwnershipInfo
unfolding deref lookup_key
get_info name c = follow name (lookup_key name c.flat) c.scopes

abbrev pub change_at : Option ℕ → Bytes → (OwnershipInfo → OwnershipInfo) → Checker → Checker
change_at none name f c = c
change_at (some l) name f c = record c { scopes = assign_at name l f c.scopes }

-- What is done to the variable of that name, if there is one.
unfoldable pub change : Bytes → (OwnershipInfo → OwnershipInfo) → Checker → Checker
unfolding assign_at lookup_key
change name f c = change_at (lookup_key name c.flat) name f c

unfoldable pub report : List Report → Checker → Checker
report rs c = record c { reports = c.reports ++ rs }

abbrev pub act_on :
    Option OwnershipInfo → Bytes → (OwnershipInfo → Outcome) → Checker → Checker × Bool
act_on none name f c = (c, true)
act_on (some i) name f c =
    (report (f i).reports (change name (λ (j : OwnershipInfo). (f j).info) c), (f i).allowed)

-- An operation on the variable of that name; a variable that is not tracked allows everything.
unfoldable pub act : Bytes → (OwnershipInfo → Outcome) → Checker → Checker × Bool
unfolding get_info change report
act name f c = act_on (get_info name c) name f c

-- `markMoved`, `checkUse`, `checkMutation`, `addBorrow`, `releaseBorrows` and `releaseBorrow`
unfoldable pub move : Bytes → SourceLocation → Checker → Checker
unfolding act mark_moved
move name loc c = (act name (mark_moved name loc) c).0

unfoldable pub use_variable : Bytes → SourceLocation → Checker → Checker
unfolding act check_use
use_variable name loc c = (act name (check_use name loc) c).0

unfoldable pub mutate : Bytes → SourceLocation → Checker → Checker × Bool
unfolding act check_mutation
mutate name loc c = act name (check_mutation name loc) c

unfoldable pub borrow_variable : Bytes → Bool → SourceLocation → Checker → Checker × Bool
unfolding act add_borrow
borrow_variable name m loc c = act name (add_borrow name m loc) c

unfoldable pub release_all : Bytes → Checker → Checker
unfolding change release_borrows
release_all name c = change name release_borrows c

unfoldable pub release_one : Bytes → Bool → Checker → Checker
unfolding change release_borrow
release_one name m c = change name (release_borrow m) c

abbrev nowhere : SourceLocation
nowhere = record { line = 0; column = 0; offset = 0 }

-- The flags of a declaration: is it mutable, of a Copy type, a Drop type or a class, and the binding
-- of a pattern?
pub record Flags : Type 0 where
  pub mutable : Bool
  pub copy : Bool
  pub drop : Bool
  pub class : Bool
  pub pattern_binding : Bool

unfoldable pub new_info : Bytes → Flags → SourceLocation → OwnershipInfo
new_info name fl loc = record {
  name = name;
  state = OwnershipState.owned;
  is_mutable = fl.mutable;
  is_copy_type = fl.copy;
  is_drop_type = fl.drop;
  is_class_type = fl.class;
  decl_location = loc;
  last_move_location = nowhere;
  last_borrow_location = nowhere;
  borrow_count = 0;
  has_mutable_borrow = false;
  is_ref_binding = false;
  is_pattern_binding = fl.pattern_binding;
  borrows_name = [];
  borrows_mutable = false;
}

-- An entry in the innermost scope, and the pointer to it
abbrev pub insert_in : Scopes → Bytes → OwnershipInfo → Checker → Checker
insert_in [] name i c = c
insert_in (d ∷ ds) name i c = record c {
  scopes = put_key name i d ∷ ds;
  flat = put_key name (length ds) c.flat;
}

-- `trackVariable`
unfoldable pub track_variable : Bytes → Flags → SourceLocation → Checker → Checker
unfolding put_key new_info
track_variable name fl loc c = insert_in c.scopes name (new_info name fl loc) c

abbrev pub pattern_flags : Flags
pattern_flags = record {
  mutable = false;
  copy = true;
  drop = false;
  class = false;
  pattern_binding = true;
}

-- `trackPatternBindings`
unfoldable mutual
  unfolding track_variable

  pub track_pattern : Pattern → SourceLocation → Checker → Checker
  track_pattern (Pattern.identifier n) loc c = track_variable n pattern_flags loc c
  track_pattern (Pattern.binding n p) loc c =
      track_pattern p loc (track_variable n pattern_flags loc c)
  track_pattern (Pattern.enum_case e n b ps) loc c = track_patterns ps loc c
  track_pattern (Pattern.tuple ps) loc c = track_patterns ps loc c
  track_pattern (Pattern.or ps) loc c = track_patterns ps loc c
  track_pattern _ loc c = c

  pub track_patterns : Patterns → SourceLocation → Checker → Checker
  track_patterns Patterns.nil loc c = c
  track_patterns (Patterns.cons p ps) loc c = track_patterns ps loc (track_pattern p loc c)

abbrev pub track_optional : Option Pattern → SourceLocation → Checker → Checker
track_optional none loc c = c
track_optional (some p) loc c = track_pattern p loc c

-- `pushOwnershipScope` and `popOwnershipScope`
unfoldable pub push_scope : Checker → Checker
push_scope c = record c { scopes = [] ∷ c.scopes }

abbrev pub tail : Scopes → Scopes
tail [] = []
tail (d ∷ ds) = ds

unfoldable pub pop_scope : Checker → Checker
pop_scope c = record c { scopes = tail c.scopes }

-- `name.empty()`
abbrev pub is_empty : Bytes → Bool
is_empty [] = true
is_empty _ = false

-- The borrow that a variable of the innermost scope holds is given back.
abbrev pub give_back : Option OwnershipInfo → Checker → Checker
give_back none c = c
give_back (some i) c =
    if i.is_ref_binding && not (is_empty i.borrows_name)
    then release_one i.borrows_name i.borrows_mutable c
    else c

unfoldable pub forget : Bytes → Checker → Checker
unfolding erase_key
forget name c = record c { flat = erase_key name c.flat }

abbrev pub innermost : Scopes → Dict OwnershipInfo
innermost [] = []
innermost (d ∷ ds) = d

abbrev pub change_top : Bytes → Scopes → Scopes
change_top name [] = []
change_top name (d ∷ ds) = modify_key name drop_info d ∷ ds

-- One turn of the loop of `dropScopeVariables`
unfoldable pub drop_variable : Bytes → Checker → Checker
unfolding drop_info modify_key lookup_key release_all release_one forget
drop_variable name c =
    let c1 = release_all name (record c { scopes = change_top name c.scopes }) in
    forget name (give_back (lookup_key name (innermost c1.scopes)) c1)

unfoldable pub drop_each : List Bytes → Checker → Checker
unfolding drop_variable
drop_each [] c = c
drop_each (name ∷ ns) c = drop_each ns (drop_variable name c)

-- `dropScopeVariables`, with the entries in the order of their declarations
unfoldable pub drop_scope_variables : Checker → Checker
unfolding drop_each keys
drop_scope_variables c = drop_each (keys (innermost c.scopes)) c
