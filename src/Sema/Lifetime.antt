-- ===== src/Sema/Lifetime.antt =====
-- `LifetimeAnalysis` of src/Sema/LifetimeAnalysis.cpp.
use liva_lang.Base.{
  ℕ, suc, ◌+◌, ◌-◌, Bool, true, false, ◌&&◌, ◌||◌, not, List, [], ◌∷◌, ◌++◌, Option, none, some,
  Bytes, ltb, leb, ◌==◌, if◌then◌else◌,
}
use liva_lang.Base.Dict.{Dict, lookup_key, put_key, modify_key}
use liva_lang.Lexer.State.{SourceLocation}
use liva_lang.Ast.Nodes.{
  Node, Info, Body, no_body, body, Maybe, absent, present, Nodes, nil, cons, Params, no_params,
  param, ClosureParam,
}
use liva_lang.Ast.Walk.{subtree}
use liva_lang.Sema.Ownership.Scopes.{is_empty}
use liva_lang.Sema.Ownership.Steps.{identifier_name}
pub mod Within
pub mod Laws
pub mod Exit
pub mod Reach
mod Tests

-- `ref_target` is empty for a variable that is no reference.
pub record VarInfo : Type 0 where
  pub scope_depth : ℕ
  pub decl_loc : SourceLocation
  pub ref_target : Bytes

-- `err_borrow_outlives_value`, with the name of the value
pub record Outlives : Type 0 where
  pub loc : SourceLocation
  pub value : Bytes

pub record Analysis : Type 0 where
  pub depth : ℕ
  pub variables : Dict VarInfo
  pub reports : List Outlives

-- `getRefTarget`
unfoldable pub get_ref_target : Node → Bytes
get_ref_target (Node.ref_expr i (Node.identifier j n) m) = n
get_ref_target _ = []

abbrev pub init_target : Maybe → Bytes
init_target absent = []
init_target (present e) = get_ref_target e

-- The variable is found, and it is deeper.
abbrev pub is_deeper : Option VarInfo → ℕ → Bool
is_deeper none d = false
is_deeper (some v) d = ltb d v.scope_depth

abbrev pub report_if : Bool → SourceLocation → Bytes → List Outlives
report_if b loc name = if b then record { loc = loc; value = name } ∷ [] else []

abbrev pub set_target : Bytes → VarInfo → VarInfo
set_target t v = record v { ref_target = t }

abbrev pub put_variable : Bytes → SourceLocation → Analysis → Analysis
put_variable name loc s = record s {
  variables =
      put_key name (record { scope_depth = s.depth; decl_loc = loc; ref_target = [] }) s.variables;
}

-- The target of a new variable
abbrev pub link : Bytes → Bytes → SourceLocation → Analysis → Analysis
link name target loc s =
    let vars = modify_key name (set_target target) s.variables in
    record s {
      variables = vars;
      reports = s.reports ++ report_if (is_deeper (lookup_key target vars) s.depth) loc target;
    }

-- `visitVarDecl`
unfoldable pub visit_var_decl : Info → Bytes → Maybe → Analysis → Analysis
unfolding lookup_key put_key modify_key get_ref_target
visit_var_decl i name e s =
    let s1 = put_variable name i.start s in
    if is_empty (init_target e) then s1 else link name (init_target e) i.start s1

-- Both variables of an assignment are found.
abbrev pub relink :
    Option VarInfo → Option VarInfo → Bytes → Bytes → SourceLocation → Analysis → Analysis
relink (some r) (some v) name target loc s = record s {
  variables = modify_key name (set_target target) s.variables;
  reports = s.reports ++ report_if (ltb r.scope_depth v.scope_depth) loc target;
}
relink _ _ name target loc s = s

abbrev pub assign_name : Option Bytes → Bytes → SourceLocation → Analysis → Analysis
assign_name none target loc s = s
assign_name (some name) target loc s =
    if is_empty target
    then s
    else relink (lookup_key name s.variables) (lookup_key target s.variables) name target loc s

-- `visitAssignExpr`
unfoldable pub visit_assign_expr : Info → Node → Node → Analysis → Analysis
unfolding lookup_key modify_key get_ref_target identifier_name
visit_assign_expr i t v s = assign_name (identifier_name t) (get_ref_target v) i.start s

-- The node, its target and its value, if it is an `AssignExpr`
unfoldable pub assign_parts : Node → Option (Info × Node × Node)
assign_parts (Node.assign i op t v) = some (i, t, v)
assign_parts _ = none

abbrev pub visit_parts : Option (Info × Node × Node) → Analysis → Analysis
visit_parts none s = s
visit_parts (some (i, t, v)) s = visit_assign_expr i t v s

-- The expression of an `ExprStmt`
unfoldable pub visit_expr : Node → Analysis → Analysis
unfolding visit_assign_expr assign_parts
visit_expr e s = visit_parts (assign_parts e) s

-- The variable is found at the depth.
abbrev pub ends_at : Option VarInfo → ℕ → Bool
ends_at none d = false
ends_at (some t) d = t.scope_depth == d

-- A reference that lives on, to a variable of the depth that ends.
abbrev pub outlives : ℕ → Dict VarInfo → VarInfo → Bool
outlives d all v =
    not (is_empty v.ref_target) && (ltb v.scope_depth d && ends_at (lookup_key v.ref_target all) d)

-- `checkScopeExit`
unfoldable pub check_scope_exit : ℕ → Dict VarInfo → Dict VarInfo → List Outlives
unfolding lookup_key
check_scope_exit d all [] = []
check_scope_exit d all ((n, v) ∷ vs) =
    report_if (outlives d all v) v.decl_loc v.ref_target ++ check_scope_exit d all vs

unfoldable pub erase_depth : ℕ → Dict VarInfo → Dict VarInfo
erase_depth d [] = []
erase_depth d ((n, v) ∷ vs) =
    if v.scope_depth == d then erase_depth d vs else (n, v) ∷ erase_depth d vs

abbrev pub enter : Analysis → Analysis
enter s = record s { depth = s.depth + 1 }

unfoldable pub leave_block : Analysis → Analysis
unfolding check_scope_exit erase_depth
leave_block s = record {
  depth = s.depth - 1;
  variables = erase_depth s.depth s.variables;
  reports = s.reports ++ check_scope_exit s.depth s.variables s.variables;
}

-- `visitNode`, and `visitBlockStmt` at the clause for a block
unfoldable mutual
  unfolding visit_var_decl visit_expr leave_block

  pub visit_node : Node → Analysis → Analysis
  visit_node (Node.block_stmt i ns) s = leave_block (visit_nodes ns (enter s))
  visit_node (Node.var_decl i name t m e) s = visit_var_decl i name e s
  visit_node (Node.expr_stmt i e) s = visit_expr e s
  visit_node (Node.if_stmt i e t f) s = visit_else f (visit_node t s)
  visit_node (Node.while_stmt i e b) s = visit_node b s
  visit_node (Node.for_stmt i n e b) s = visit_node b s
  visit_node (Node.if_let_stmt i n e t f) s = visit_else f (visit_node t s)
  visit_node (Node.while_let_stmt i n e b) s = visit_node b s
  visit_node _ s = s

  pub visit_else : Maybe → Analysis → Analysis
  visit_else absent s = s
  visit_else (present n) s = visit_node n s

  pub visit_nodes : Nodes → Analysis → Analysis
  visit_nodes nil s = s
  visit_nodes (cons n ns) s = visit_nodes ns (visit_node n s)

unfoldable pub param_variables : List (Bytes × SourceLocation) → Dict VarInfo → Dict VarInfo
unfolding put_key
param_variables [] vs = vs
param_variables ((n, loc) ∷ ps) vs =
    param_variables ps (put_key n (record { scope_depth = 0; decl_loc = loc; ref_target = [] }) vs)

-- The state at the beginning of `analyzeBody`
unfoldable pub start_body : List (Bytes × SourceLocation) → Analysis → Analysis
unfolding param_variables
start_body ps s = record s { depth = 0; variables = param_variables ps [] }

-- `analyzeBody`
unfoldable pub analyze_body : Maybe → List (Bytes × SourceLocation) → Analysis → Analysis
unfolding start_body visit_node
analyze_body absent ps s = s
analyze_body (present b) ps s = visit_node b (start_body ps s)

abbrev pub block_of : Body → Maybe
block_of no_body = absent
block_of (body i ns) = present (Node.block_stmt i ns)

unfoldable pub func_params : Params → List (Bytes × SourceLocation)
func_params no_params = []
func_params (param p d ps) = (p.name, p.location) ∷ func_params ps

unfoldable pub closure_params : SourceLocation → List ClosureParam → List (Bytes × SourceLocation)
closure_params loc [] = []
closure_params loc (p ∷ ps) = (p.name, loc) ∷ closure_params loc ps

-- The callback of `check`, with `analyzeFunction` at the clause for a function
unfoldable pub analyze : Node → Analysis → Analysis
unfolding analyze_body func_params closure_params
analyze (Node.func_decl i n ts ps b) s = analyze_body (block_of b) (func_params ps) s
analyze (Node.test_decl i n b) s = analyze_body (block_of b) [] s
analyze (Node.closure i ps b) s = analyze_body b (closure_params i.start ps) s
analyze _ s = s

unfoldable pub analyze_all : List Node → Analysis → Analysis
unfolding analyze
analyze_all [] s = s
analyze_all (n ∷ ns) s = analyze_all ns (analyze n s)

-- `check`
unfoldable pub check : Nodes → Analysis → Analysis
unfolding analyze_all subtree
check nil s = s
check (cons n ns) s = check ns (analyze_all (subtree n) s)
