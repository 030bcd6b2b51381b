-- ===== src/Sema/Lifetime/Reach.antt =====
-- The states in which `LifetimeAnalysis` comes to the statements of a body.
use liva_lang.Base.{List, [], ◌∷◌, Bytes, Bool, Option, ◌≡◌, arith}
use liva_lang.Base.Dict.{Dict}
use liva_lang.Lexer.State.{SourceLocation}
use liva_lang.Ast.Nodes.{Node, Info, Maybe, present, Nodes, cons}
use liva_lang.Ast.Types.Repr.{TypeRepr}
use liva_lang.Sema.Lifetime.{VarInfo, Analysis, visit_node, enter, param_variables, start_body}
use liva_lang.Sema.Lifetime.Within.{AllWithin, AllWithin-suc, AllWithin-put_key}
use liva_lang.Sema.Lifetime.Laws.{visit_node-Balanced}
use liva_lang.Sema.Lifetime.Exit.{visit_var_decl-reports}

-- The visit of the node from the state comes to the visit of `m` from `t`.
mutual
  pub data Comes (m : Node) (t : Analysis) : Node → Analysis → Type 0 where
    here : Comes m t m t
    in_block :
        (i : Info) (ns : Nodes) (s : Analysis)
        → ComesIn m t ns (enter s)
        → Comes m t (Node.block_stmt i ns) s
    in_then :
        (i : Info) (e n : Node) (f : Maybe) (s : Analysis)
        → Comes m t n s
        → Comes m t (Node.if_stmt i e n f) s
    in_else :
        (i : Info) (e n f : Node) (s : Analysis)
        → Comes m t f (visit_node n s)
        → Comes m t (Node.if_stmt i e n (present f)) s
    in_while :
        (i : Info) (e b : Node) (s : Analysis) → Comes m t b s → Comes m t (Node.while_stmt i e b) s
    in_for :
        (i : Info) (x : Bytes) (e b : Node) (s : Analysis)
        → Comes m t b s
        → Comes m t (Node.for_stmt i x e b) s
    in_let_then :
        (i : Info) (x : Bytes) (e n : Node) (f : Maybe) (s : Analysis)
        → Comes m t n s
        → Comes m t (Node.if_let_stmt i x e n f) s
    in_let_else :
        (i : Info) (x : Bytes) (e n f : Node) (s : Analysis)
        → Comes m t f (visit_node n s)
        → Comes m t (Node.if_let_stmt i x e n (present f)) s
    in_while_let :
        (i : Info) (x : Bytes) (e b : Node) (s : Analysis)
        → Comes m t b s
        → Comes m t (Node.while_let_stmt i x e b) s

  pub data ComesIn (m : Node) (t : Analysis) : Nodes → Analysis → Type 0 where
    first : (n : Node) (ns : Nodes) (s : Analysis) → Comes m t n s → ComesIn m t (cons n ns) s
    next :
        (n : Node) (ns : Nodes) (s : Analysis)
        → ComesIn m t ns (visit_node n s)
        → ComesIn m t (cons n ns) s

-- No variable is deeper than the depth.
abbrev IsWithin : Analysis → Type 0
IsWithin s = AllWithin s.depth s.variables

mutual
  Comes-IsWithin :
      (m : Node) (t : Analysis) (n : Node) (s : Analysis) → Comes m t n s → IsWithin s → IsWithin t
  Comes-IsWithin m t _ _ Comes.here h = h
  Comes-IsWithin m t _ _ (Comes.in_block i ns s c) h =
      ComesIn-IsWithin m t ns (enter s) c (AllWithin-suc s.depth s.variables h)
  Comes-IsWithin m t _ _ (Comes.in_then i e n f s c) h = Comes-IsWithin m t n s c h
  Comes-IsWithin m t _ _ (Comes.in_else i e n f s c) h =
      Comes-IsWithin m t f (visit_node n s) c ((visit_node-Balanced n s).within h)
  Comes-IsWithin m t _ _ (Comes.in_while i e b s c) h = Comes-IsWithin m t b s c h
  Comes-IsWithin m t _ _ (Comes.in_for i x e b s c) h = Comes-IsWithin m t b s c h
  Comes-IsWithin m t _ _ (Comes.in_let_then i x e n f s c) h = Comes-IsWithin m t n s c h
  Comes-IsWithin m t _ _ (Comes.in_let_else i x e n f s c) h =
      Comes-IsWithin m t f (visit_node n s) c ((visit_node-Balanced n s).within h)
  Comes-IsWithin m t _ _ (Comes.in_while_let i x e b s c) h = Comes-IsWithin m t b s c h

  ComesIn-IsWithin :
      (m : Node) (t : Analysis) (ns : Nodes) (s : Analysis)
      → ComesIn m t ns s
      → IsWithin s
      → IsWithin t
  ComesIn-IsWithin m t _ _ (ComesIn.first n ns s c) h = Comes-IsWithin m t n s c h
  ComesIn-IsWithin m t _ _ (ComesIn.next n ns s c) h =
      ComesIn-IsWithin m t ns (visit_node n s) c ((visit_node-Balanced n s).within h)

param_variables-AllWithin :
    (ps : List (Bytes × SourceLocation)) (vs : Dict VarInfo)
    → AllWithin 0 vs
    → AllWithin 0 (param_variables ps vs)
unfolding param_variables
param_variables-AllWithin [] vs h = h
param_variables-AllWithin ((n, loc) ∷ ps) vs h =
    param_variables-AllWithin ps _ (AllWithin-put_key 0 n _ vs (omega arith) h)

start_body-IsWithin :
    (ps : List (Bytes × SourceLocation)) (s : Analysis) → IsWithin (start_body ps s)
unfolding start_body
start_body-IsWithin ps s = param_variables-AllWithin ps [] tt

-- In the analysis of a body, begun with any parameters and behind any other analysis, each declaration
-- of a variable that the visit comes to is visited without a report.
pub var_decl-reports :
    (b : Node) (ps : List (Bytes × SourceLocation)) (s t : Analysis) (i : Info) (name : Bytes)
    (type : Option TypeRepr) (mutable : Bool) (e : Maybe)
    → Comes (Node.var_decl i name type mutable e) t b (start_body ps s)
    → (visit_node (Node.var_decl i name type mutable e) t).reports ≡ t.reports
unfolding visit_node
var_decl-reports b ps s t i name type mutable e c = visit_var_decl-reports i name e t (
    Comes-IsWithin (Node.var_decl i name type mutable e) t b (start_body ps s) c
      (start_body-IsWithin ps s))
