-- ===== src/Sema/Lifetime/Tests.antt =====
-- A block in which a reference outlives its value.
use liva_lang.Base.{[], ◌∷◌, none, Bytes, false, ◌≡◌}
use liva_lang.Base.Dict.{Dict}
use liva_lang.Ast.Nodes.{Node, Info, AssignOp, absent, present, nil, cons}
use liva_lang.Sema.Lifetime.{VarInfo, Analysis, visit_node, enter, start_body}
use liva_lang.Sema.Lifetime.Laws.{Balanced, visit_node-Balanced}
use liva_lang.Sema.Lifetime.Reach.{Comes, ComesIn, var_decl-reports}

abbrev here : Info
here = record { start = record { line = 1; column = 1; offset = 0 }; resolved = none }

abbrev r : Bytes
r = 114 ∷ []

abbrev x : Bytes
x = 120 ∷ []

abbrev y : Bytes
y = 121 ∷ []

-- `r` at depth 1, which refers to `x` at depth 2
abbrev two : Dict VarInfo
two =
    (r, record { scope_depth = 1; decl_loc = here.start; ref_target = x })
    ∷ (x, record { scope_depth = 2; decl_loc = here.start; ref_target = [] })
    ∷ []

abbrev inside : Analysis
inside = record { depth = 2; variables = two; reports = [] }

-- `{ var x; r = ref x; }`
abbrev inner : Node
inner = Node.block_stmt here (
    cons (Node.var_decl here x none false absent) (
      cons
        (Node.expr_stmt here (
          Node.assign here AssignOp.assign (Node.identifier here r)
            (Node.ref_expr here (Node.identifier here x) false)))
        nil))

visit_node-Balanced_example : Balanced inside (visit_node inner inside)
visit_node-Balanced_example = visit_node-Balanced inner inside

-- `let y = ref r` in the block of a function with the parameter `r`
abbrev decl : Node
decl = Node.var_decl here y none false (present (Node.ref_expr here (Node.identifier here r) false))

abbrev started : Analysis
started = record {
  depth = 0;
  variables = (r, record { scope_depth = 0; decl_loc = here.start; ref_target = [] }) ∷ [];
  reports = [];
}

comes :
    Comes decl
      (enter started)
      (Node.block_stmt here (cons decl nil))
      (start_body ((r, here.start) ∷ []) (record { depth = 0; variables = []; reports = [] }))
unfolding start_body
comes =
    Comes.in_block here (cons decl nil) started (ComesIn.first decl nil (enter started) Comes.here)

var_decl-reports_example : (visit_node decl (enter started)).reports ≡ []
var_decl-reports_example =
    var_decl-reports (Node.block_stmt here (cons decl nil)) ((r, here.start) ∷ [])
      (record { depth = 0; variables = []; reports = [] }) (enter started) here y none false
      (present (Node.ref_expr here (Node.identifier here r) false)) comes
