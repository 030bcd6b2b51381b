-- ===== src/Sema/Ownership/Targets.antt =====
-- What `visitAssignExpr`, `visitRefExpr` and `visitCallExpr` do between the visits of the parts.
use liva_lang.Base.{
  ℕ, Bool, true, false, ◌&&◌, ◌||◌, not, List, [], ◌∷◌, ◌++◌, Option, none, some, Bytes,
  if◌then◌else◌,
}
use liva_lang.Lexer.State.{SourceLocation}
use liva_lang.Ast.Nodes.{Node, Info, AssignOp, info_of}
use liva_lang.Sema.Ownership.Info.{OwnershipInfo, DiagId, say, is_borrowed}
use liva_lang.Sema.Ownership.Scopes.{
  Checker, get_info, report, move, mutate, borrow_variable, release_one, is_empty,
}
use liva_lang.Sema.Ownership.Types.{Setting, is_class_type, param_is_dyn_protocol}
use liva_lang.Sema.Ownership.Steps.{consume, identifier_name, is_ref, resolved_type}

-- `rootIdentifier`, `isCompositeAssignTarget` and `compositeAssignBase`
unfoldable pub root_identifier : Node → Option Bytes
root_identifier (Node.identifier i n) = some n
root_identifier (Node.member i o n) = root_identifier o
root_identifier (Node.index i b x) = root_identifier b
root_identifier (Node.group i e) = root_identifier e
root_identifier _ = none

unfoldable pub is_composite : Node → Bool
is_composite (Node.group i e) = is_composite e
is_composite (Node.member i o n) = true
is_composite (Node.index i b x) = true
is_composite _ = false

unfoldable pub composite_base : Node → Option Node
composite_base (Node.group i e) = composite_base e
composite_base (Node.member i o n) = some o
composite_base (Node.index i b x) = some b
composite_base _ = none

-- The move of `visitAssignExpr`: plain, from a name to a name
abbrev pub is_plain : AssignOp → Bool
is_plain AssignOp.assign = true
is_plain _ = false

abbrev pub is_some : Option Bytes → Bool
is_some none = false
is_some (some n) = true

unfoldable pub assign_move : AssignOp → Node → Node → SourceLocation → Checker → Checker
unfolding consume identifier_name
assign_move op t v loc c = if is_plain op && is_some (identifier_name t) then consume v loc c else c

-- `writeThroughRef`
abbrev pub writes_through : Option OwnershipInfo → Node → Bool
writes_through none v = false
writes_through (some i) v = i.is_ref_binding && not (is_ref v)

abbrev pub base_is_class : Setting → Option Node → Bool
base_is_class s none = false
base_is_class s (some b) = is_class_type s (resolved_type b)

-- `exemptClassFieldWrite`
abbrev pub exempt : Setting → Option OwnershipInfo → Node → Bool
exempt s none t = false
exempt s (some i) t = is_composite t && (i.is_class_type || base_is_class s (composite_base t))

-- The state of a variable is one of the borrowed.
abbrev pub shows_borrow : Option OwnershipInfo → Bool
shows_borrow none = false
shows_borrow (some i) = is_borrowed i.state

unfoldable pub check_unborrowed : Bytes → SourceLocation → Checker → Checker
unfolding get_info report
check_unborrowed name loc c =
    if shows_borrow (get_info name c)
    then report (say loc DiagId.err_move_while_borrowed name ∷ []) c
    else c

abbrev pub check_allowed : Bytes → SourceLocation → Checker × Bool → Checker
check_allowed name loc (c, b) = if b then check_unborrowed name loc c else c

-- The check of the root of a target
unfoldable pub check_root : Setting → SourceLocation → Bytes → Node → Node → Checker → Checker
unfolding get_info mutate check_unborrowed is_ref is_composite composite_base is_class_type info_of
check_root s loc name t v c =
    let i = get_info name c in
    if writes_through i v || exempt s i t
    then check_unborrowed name loc c
    else check_allowed name loc (mutate name loc c)

abbrev pub check_target : Option Bytes → Setting → SourceLocation → Node → Node → Checker → Checker
check_target none s loc t v c = c
check_target (some name) s loc t v c = check_root s loc name t v c

-- `visitAssignExpr`, between the visits of the value and of the target
unfoldable pub assign_checks : Setting → Info → AssignOp → Node → Node → Checker → Checker
unfolding root_identifier check_root assign_move
assign_checks s i op t v c =
    check_target (root_identifier t) s i.start t v (assign_move op t v i.start c)

abbrev pub no_borrow : Checker → Checker
no_borrow c = record c { last_ref_borrow = ([], false) }

abbrev pub immutable_reports : SourceLocation → Bytes → Checker → Checker
immutable_reports loc n c =
    report
      (say loc DiagId.err_mut_ref_to_immutable n ∷ say loc DiagId.note_use_var_for_mutable [] ∷ [])
      c

-- The borrow is registered for the call or the binding, and the variable must be mutable.
abbrev pub note_borrow : Option OwnershipInfo → Bytes → Bool → SourceLocation → Checker → Checker
note_borrow none n m loc c = c
note_borrow (some i) n m loc c =
    let c1 = record c { last_ref_borrow = (n, m) } in
    if m && not i.is_mutable then immutable_reports loc n c1 else c1

abbrev pub registered : Bytes → Bool → SourceLocation → Checker × Bool → Checker × Bool
registered n m loc (c, b) = if b then (note_borrow (get_info n c) n m loc c, true) else (c, false)

abbrev pub borrow_name : SourceLocation → Option Bytes → Bool → Checker → Checker × Bool
borrow_name loc none m c = (c, true)
borrow_name loc (some n) m c = registered n m loc (borrow_variable n m loc c)

-- `visitRefExpr`, before the visit of the operand, and whether that is visited
unfoldable pub take_borrow : Info → Node → Bool → Checker → Checker × Bool
unfolding get_info report borrow_variable identifier_name
take_borrow i e m c = borrow_name i.start (identifier_name e) m (no_borrow c)

-- `calleeName` and `calleeIsMemberCall`
unfoldable pub callee_name : Node → Bytes
callee_name (Node.identifier i n) = n
callee_name (Node.member i o n) = n
callee_name _ = []

unfoldable pub is_member_call : Node → Bool
is_member_call (Node.member i o n) = true
is_member_call _ = false

-- `dynBorrow` of argument `k`
unfoldable pub dyn_borrow : Setting → Node → ℕ → Bool
unfolding callee_name is_member_call param_is_dyn_protocol
dyn_borrow s f k =
    not (is_empty (callee_name f)) && param_is_dyn_protocol s (callee_name f) (is_member_call f) k

abbrev pub is_movable : Option OwnershipInfo → Bool
is_movable none = false
is_movable (some i) = not i.is_copy_type

-- `argBorrows`
abbrev pub Borrows : Type 0
Borrows = List (Bytes × Bool)

abbrev pub add_arg_borrow : Bytes × Bool → Borrows → Borrows
add_arg_borrow b bs = if is_empty b.0 then bs else bs ++ b ∷ []

-- The turn of an argument, behind its visit
abbrev pub pass_name : Option Bytes → Bool → SourceLocation → Checker → Checker
pass_name none dyn loc c = c
pass_name (some n) dyn loc c = if is_movable (get_info n c) && not dyn then move n loc c else c

unfoldable pub after_arg : Setting → Node → ℕ → Node → Checker → Checker
unfolding get_info dyn_borrow move identifier_name info_of
after_arg s f k a c = pass_name (identifier_name a) (dyn_borrow s f k) (info_of a).start c

unfoldable pub arg_borrows : Node → Checker → Borrows → Borrows
unfolding is_ref
arg_borrows a c bs = if is_ref a then add_arg_borrow c.last_ref_borrow bs else bs

unfoldable pub release_args : Borrows → Checker → Checker
unfolding release_one
release_args [] c = c
release_args ((n, m) ∷ bs) c = release_args bs (release_one n m c)
