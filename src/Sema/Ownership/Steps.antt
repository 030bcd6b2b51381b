-- ===== src/Sema/Ownership/Steps.antt =====
-- What the visitors of `OwnershipChecker` do between the visits of the parts.
use liva_lang.Base.{
  ℕ, Bool, true, false, ◌&&◌, not, List, [], ◌∷◌, ◌++◌, Option, none, some, Bytes, ◌==◌,
  if◌then◌else◌,
}
use liva_lang.Lexer.State.{SourceLocation}
use liva_lang.Ast.Types.Repr.{TypeRepr, Kind}
use liva_lang.Ast.Nodes.{
  Node, Info, Maybe, absent, present, Nodes, Params, no_params, param, ClosureParam, info_of,
}
use liva_lang.Sema.Borrow.{find_last_use, LastUseResult}
use liva_lang.Sema.Ownership.Info.{OwnershipInfo}
use liva_lang.Sema.Ownership.Scopes.{
  Checker, get_info, change, move, release_one, Flags, track_variable, push_scope, is_empty,
}
use liva_lang.Sema.Ownership.Types.{
  Setting, is_copy_type, is_drop_type, is_class_type, container_element_type,
}

-- The flags of a declaration by its type.
unfoldable pub flags_of : Setting → Checker → Bool → Bool → Option TypeRepr → Flags
unfolding is_class_type
flags_of s c mutable pattern_binding t = record {
  mutable = mutable;
  copy = is_copy_type s c.type_params t;
  drop = is_drop_type s t;
  class = is_class_type s t;
  pattern_binding = pattern_binding;
}

-- The parameters of `visitFuncDecl` and of `visitClosureExpr`
unfoldable pub track_params : Setting → Params → Checker → Checker
unfolding track_variable flags_of
track_params s no_params c = c
track_params s (param p d ps) c =
    track_params s ps (track_variable p.name (flags_of s c p.is_mut_ref false p.type) p.location c)

unfoldable pub track_closure_params :
    Setting → SourceLocation → List ClosureParam → Checker → Checker
unfolding track_variable flags_of
track_closure_params s loc [] c = c
track_closure_params s loc (p ∷ ps) c =
    track_closure_params s loc ps (track_variable p.name (flags_of s c false true p.type) loc c)

-- `isDropType` of the variable that an expression names, if it is tracked
abbrev pub drops : Option OwnershipInfo → Bool
drops none = false
drops (some i) = i.is_drop_type

unfoldable pub names_drop : Node → Checker → Bool
unfolding get_info
names_drop (Node.identifier i n) c = drops (get_info n c)
names_drop _ c = false

-- The name, if the node is an `IdentifierExpr`
unfoldable pub identifier_name : Node → Option Bytes
identifier_name (Node.identifier i n) = some n
identifier_name _ = none

abbrev pub consume_name : Option Bytes → SourceLocation → Checker → Checker
consume_name none loc c = c
consume_name (some n) loc c = if drops (get_info n c) then move n loc c else c

-- `markMoved` of a variable that stands as the source of a declaration or an assignment
unfoldable pub consume : Node → SourceLocation → Checker → Checker
unfolding get_info move identifier_name
consume e loc c = consume_name (identifier_name e) loc c

abbrev pub consume_maybe : Maybe → SourceLocation → Checker → Checker
consume_maybe absent loc c = c
consume_maybe (present e) loc c = consume e loc c

abbrev pub resolved_type : Node → Option TypeRepr
resolved_type e = (info_of e).resolved

abbrev pub init_type : Maybe → Option TypeRepr
init_type absent = none
init_type (present e) = resolved_type e

-- The type of a variable: none counts as `Copy`.
unfoldable pub var_type : Option TypeRepr → Maybe → Option TypeRepr
unfolding info_of
var_type none e = init_type e
var_type (some (TypeRepr.plain Kind.inferred)) e = init_type e
var_type (some t) e = some t

-- The borrow that was registered last is given to a binding.
abbrev pub hold : Bytes × Bool → OwnershipInfo → OwnershipInfo
hold b i = record i { is_ref_binding = true; borrows_name = b.0; borrows_mutable = b.1 }

-- Whether the node is a `RefExpr`
unfoldable pub is_ref : Node → Bool
is_ref (Node.ref_expr i e m) = true
is_ref _ = false

abbrev pub is_ref_init : Maybe → Bool
is_ref_init absent = false
is_ref_init (present e) = is_ref e

unfoldable pub bind_ref : Maybe → Bytes → Checker → Checker
unfolding change is_ref
bind_ref init name c = if is_ref_init init then change name (hold c.last_ref_borrow) c else c

-- `visitVarDecl`, behind the visit of the initializer
unfoldable pub declare : Setting → Info → Bytes → Option TypeRepr → Bool → Maybe → Checker → Checker
unfolding consume var_type track_variable flags_of bind_ref
declare s i name type mutable init c = bind_ref init name (
    track_variable name (flags_of s c mutable false (var_type type init)) i.start
      (consume_maybe init i.start c))

-- `visitForStmt`, between the visits of the iterable and of the body
unfoldable pub enter_loop : Setting → Info → Bytes → Node → Checker → Checker
unfolding track_variable push_scope info_of container_element_type is_class_type
enter_loop s i name e c =
    track_variable name
      (record {
        mutable = false;
        copy = true;
        drop = false;
        class = is_class_type s (container_element_type (resolved_type e));
        pattern_binding = true;
      })
      i.start (push_scope c)

-- `visitIfLetStmt` and `visitWhileLetStmt`, between the visits of the optional and of the body
unfoldable pub enter_let : Setting → Info → Bytes → Node → Checker → Checker
unfolding names_drop consume track_variable push_scope info_of container_element_type is_class_type
enter_let s i name e c =
    track_variable name
      (record {
        mutable = false;
        copy = not (names_drop e c);
        drop = names_drop e c;
        class = is_class_type s (container_element_type (resolved_type e));
        pattern_binding = true;
      })
      i.start (push_scope (consume e i.start c))

abbrev pub Pending : Type 0
Pending = List (ℕ × Bytes)

abbrev pub add_pending : LastUseResult → Bytes → Pending → Pending
add_pending r name ps = if r.shortenable then ps ++ (r.stmt_index, name) ∷ [] else ps

-- Whether a binding holds a borrow.
abbrev pub holds : Option OwnershipInfo → Bool
holds none = false
holds (some i) = i.is_ref_binding && not (is_empty i.borrows_name)

-- The name, if the node is a `VarDecl`
unfoldable pub declared_name : Node → Option Bytes
declared_name (Node.var_decl d name t m e) = some name
declared_name _ = none

abbrev pub note_name : Option Bytes → Nodes → ℕ → Checker → Pending → Pending
note_name none after i c ps = ps
note_name (some name) after i c ps =
    if holds (get_info name c) then add_pending (find_last_use after i name) name ps else ps

-- `pendingRelease` behind statement `i`, with the statements that follow it
unfoldable pub note_pending : Nodes → ℕ → Node → Checker → Pending → Pending
unfolding get_info find_last_use declared_name
note_pending after i n c ps = note_name (declared_name n) after i c ps

abbrev pub clear : OwnershipInfo → OwnershipInfo
clear i = record i { borrows_name = [] }

abbrev pub end_borrow : Option OwnershipInfo → Bytes → Checker → Checker
end_borrow none name c = c
end_borrow (some i) name c = change name clear (release_one i.borrows_name i.borrows_mutable c)

-- The entries of statement `i`, whose borrows end, and those that stay
unfoldable pub settle : ℕ → Pending → Checker → Checker
unfolding get_info change release_one
settle i [] c = c
settle i ((k, name) ∷ ps) c =
    settle i ps (if k == i then end_borrow (get_info name c) name c else c)

unfoldable pub remaining : ℕ → Pending → Pending
remaining i [] = []
remaining i ((k, name) ∷ ps) = if k == i then remaining i ps else (k, name) ∷ remaining i ps
