-- ===== src/Sema/Lifetime/Laws.antt =====
-- The depths of the variables, and the reports, behind a statement.
use mathlib.Core.List.{append-nil, append_assoc}
use mathlib.Core.Path.{subst}
use liva_lang.Base.{
  ℕ, ◌+◌, ◌-◌, Bool, true, false, List, [], ◌++◌, Option, none, some, Bytes, if◌then◌else◌, ◌≡◌,
  refl, sym, ap, ◌∙◌, arith,
}
use liva_lang.Base.Dict.{Dict}
use liva_lang.Lexer.State.{SourceLocation}
use liva_lang.Ast.Nodes.{Node, Info, Maybe, absent, present, Nodes, nil, cons}
use liva_lang.Sema.Ownership.Scopes.{is_empty}
use liva_lang.Sema.Ownership.Steps.{identifier_name}
use liva_lang.Sema.Lifetime.{
  VarInfo, Outlives, Analysis, get_ref_target, init_target, put_variable, link, visit_var_decl,
  relink, assign_name, visit_assign_expr, visit_expr, visit_parts, assign_parts, check_scope_exit,
  erase_depth, enter, leave_block, visit_node, visit_else, visit_nodes,
}
use liva_lang.Sema.Lifetime.Within.{
  AllWithin, AllWithin-suc, AllWithin-put_key, AllWithin-modify_key, AllWithin-erase_depth,
}

-- The depth is the same, the variables stay within it, and reports are only added.
pub record Balanced (s t : Analysis) : Type 0 where
  pub same_depth : t.depth ≡ s.depth
  pub within : AllWithin s.depth s.variables → AllWithin t.depth t.variables
  pub log : (rs : List Outlives) × (t.reports ≡ s.reports ++ rs)

Balanced-refl : (s : Analysis) → Balanced s s
Balanced-refl s = record {
  same_depth = refl;
  within = λ h. h;
  log = ([], sym (append-nil s.reports));
}

Balanced-trans : {r s t : Analysis} → Balanced r s → Balanced s t → Balanced r t
Balanced-trans {r} {s} {t} h k = record {
  same_depth = k.same_depth ∙ h.same_depth;
  within = λ x. k.within (h.within x);
  log = (
    h.log.0 ++ k.log.0,
    k.log.1
        ∙ ap (λ (rs : List Outlives). rs ++ k.log.0) h.log.1
        ∙ append_assoc r.reports h.log.0 k.log.0,
  );
}

Balanced-if :
    {s t u : Analysis} (b : Bool) → Balanced s t → Balanced s u → Balanced s (if b then t else u)
Balanced-if true h k = h
Balanced-if false h k = k

put_variable-Balanced :
    (name : Bytes) (loc : SourceLocation) (s : Analysis) → Balanced s (put_variable name loc s)
put_variable-Balanced name loc s = record {
  same_depth = refl;
  within = AllWithin-put_key s.depth name _ s.variables (omega arith);
  log = ([], sym (append-nil s.reports));
}

link-Balanced :
    (name target : Bytes) (loc : SourceLocation) (s : Analysis)
    → Balanced s (link name target loc s)
link-Balanced name target loc s = record {
  same_depth = refl;
  within = AllWithin-modify_key s.depth name target s.variables;
  log = (_, refl);
}

visit_var_decl-Balanced :
    (i : Info) (name : Bytes) (e : Maybe) (s : Analysis) → Balanced s (visit_var_decl i name e s)
unfolding visit_var_decl
visit_var_decl-Balanced i name e s =
    Balanced-if (is_empty (init_target e)) (put_variable-Balanced name i.start s) (
      Balanced-trans (put_variable-Balanced name i.start s)
        (link-Balanced name (init_target e) i.start _))

relink-Balanced :
    (r v : Option VarInfo) (name target : Bytes) (loc : SourceLocation) (s : Analysis)
    → Balanced s (relink r v name target loc s)
relink-Balanced none v name target loc s = Balanced-refl s
relink-Balanced (some r) none name target loc s = Balanced-refl s
relink-Balanced (some r) (some v) name target loc s = record {
  same_depth = refl;
  within = AllWithin-modify_key s.depth name target s.variables;
  log = (_, refl);
}

assign_name-Balanced :
    (o : Option Bytes) (target : Bytes) (loc : SourceLocation) (s : Analysis)
    → Balanced s (assign_name o target loc s)
assign_name-Balanced none target loc s = Balanced-refl s
assign_name-Balanced (some name) target loc s =
    Balanced-if (is_empty target) (Balanced-refl s) (relink-Balanced _ _ name target loc s)

visit_assign_expr-Balanced :
    (i : Info) (t v : Node) (s : Analysis) → Balanced s (visit_assign_expr i t v s)
unfolding visit_assign_expr
visit_assign_expr-Balanced i t v s =
    assign_name-Balanced (identifier_name t) (get_ref_target v) i.start s

visit_parts-Balanced :
    (o : Option (Info × Node × Node)) (s : Analysis) → Balanced s (visit_parts o s)
visit_parts-Balanced none s = Balanced-refl s
visit_parts-Balanced (some (i, t, v)) s = visit_assign_expr-Balanced i t v s

visit_expr-Balanced : (e : Node) (s : Analysis) → Balanced s (visit_expr e s)
unfolding visit_expr
visit_expr-Balanced e s = visit_parts-Balanced (assign_parts e) s

-- The variables of the depth that ends are gone.
ended :
    (d e : ℕ) (vs : Dict VarInfo)
    → e ≡ d + 1
    → AllWithin e vs
    → AllWithin (e - 1) (erase_depth e vs)
ended d e vs q =
    subst (λ (m : ℕ). AllWithin m vs → AllWithin (m - 1) (erase_depth m vs)) (sym q)
      (λ x.
        subst (λ (m : ℕ). AllWithin m (erase_depth (d + 1) vs)) (omega arith)
          (AllWithin-erase_depth d vs x))

-- The end of a block.
block-Balanced : (s t : Analysis) → Balanced (enter s) t → Balanced s (leave_block t)
unfolding leave_block
block-Balanced s t h = record {
  same_depth = omega (arith, h.same_depth);
  within = λ x.
      ended s.depth t.depth t.variables h.same_depth
        (h.within (AllWithin-suc s.depth s.variables x));
  log = (
    _,
    ap (λ (rs : List Outlives). rs ++ check_scope_exit t.depth t.variables t.variables) h.log.1
        ∙ append_assoc s.reports h.log.0 _,
  );
}

mutual
  unfolding visit_node

  visit_part-Balanced : (n : Node) (s : Analysis) → Balanced s (visit_node n s)
  visit_part-Balanced (Node.func_decl i _ _ _ _) s = Balanced-refl s
  visit_part-Balanced (Node.var_decl i n t m e) s = visit_var_decl-Balanced i n e s
  visit_part-Balanced (Node.struct_decl i _ _ _) s = Balanced-refl s
  visit_part-Balanced (Node.field_decl i _ _ _ _ _ _) s = Balanced-refl s
  visit_part-Balanced (Node.enum_decl i _ _) s = Balanced-refl s
  visit_part-Balanced (Node.enum_case_decl i _) s = Balanced-refl s
  visit_part-Balanced (Node.impl_decl i _ _ _) s = Balanced-refl s
  visit_part-Balanced (Node.protocol_decl i _ _ _) s = Balanced-refl s
  visit_part-Balanced (Node.import_decl i _) s = Balanced-refl s
  visit_part-Balanced (Node.type_alias_decl i _) s = Balanced-refl s
  visit_part-Balanced (Node.macro_decl i _) s = Balanced-refl s
  visit_part-Balanced (Node.class_decl i _ _ _) s = Balanced-refl s
  visit_part-Balanced (Node.test_decl i _ _) s = Balanced-refl s
  visit_part-Balanced (Node.expr_stmt i e) s = visit_expr-Balanced e s
  visit_part-Balanced (Node.return_stmt i _) s = Balanced-refl s
  visit_part-Balanced (Node.if_stmt i e t f) s =
      Balanced-trans (visit_part-Balanced t s) (visit_else-Balanced f _)
  visit_part-Balanced (Node.while_stmt i e b) s = visit_part-Balanced b s
  visit_part-Balanced (Node.for_stmt i n e b) s = visit_part-Balanced b s
  visit_part-Balanced (Node.block_stmt i ns) s =
      block-Balanced s _ (visit_nodes-Balanced ns (enter s))
  visit_part-Balanced (Node.break_stmt i) s = Balanced-refl s
  visit_part-Balanced (Node.continue_stmt i) s = Balanced-refl s
  visit_part-Balanced (Node.if_let_stmt i n e t f) s =
      Balanced-trans (visit_part-Balanced t s) (visit_else-Balanced f _)
  visit_part-Balanced (Node.while_let_stmt i n e b) s = visit_part-Balanced b s
  visit_part-Balanced (Node.integer_literal i _) s = Balanced-refl s
  visit_part-Balanced (Node.float_literal i) s = Balanced-refl s
  visit_part-Balanced (Node.bool_literal i _) s = Balanced-refl s
  visit_part-Balanced (Node.string_literal i _) s = Balanced-refl s
  visit_part-Balanced (Node.nil_literal i) s = Balanced-refl s
  visit_part-Balanced (Node.identifier i _) s = Balanced-refl s
  visit_part-Balanced (Node.binary i _ _ _) s = Balanced-refl s
  visit_part-Balanced (Node.unary i _ _) s = Balanced-refl s
  visit_part-Balanced (Node.call i _ _) s = Balanced-refl s
  visit_part-Balanced (Node.member i _ _) s = Balanced-refl s
  visit_part-Balanced (Node.index i _ _) s = Balanced-refl s
  visit_part-Balanced (Node.assign i _ _ _) s = Balanced-refl s
  visit_part-Balanced (Node.struct_literal i _ _ _) s = Balanced-refl s
  visit_part-Balanced (Node.match_expr i _ _) s = Balanced-refl s
  visit_part-Balanced (Node.array_literal i _) s = Balanced-refl s
  visit_part-Balanced (Node.tuple_literal i _) s = Balanced-refl s
  visit_part-Balanced (Node.cast i _ _ _) s = Balanced-refl s
  visit_part-Balanced (Node.is_expr i _ _) s = Balanced-refl s
  visit_part-Balanced (Node.ref_expr i _ _) s = Balanced-refl s
  visit_part-Balanced (Node.group i _) s = Balanced-refl s
  visit_part-Balanced (Node.range i _ _ _) s = Balanced-refl s
  visit_part-Balanced (Node.unwrap i _) s = Balanced-refl s
  visit_part-Balanced (Node.closure i _ _) s = Balanced-refl s
  visit_part-Balanced (Node.try_expr i _) s = Balanced-refl s
  visit_part-Balanced (Node.ternary i _ _ _) s = Balanced-refl s
  visit_part-Balanced (Node.await_expr i _) s = Balanced-refl s
  visit_part-Balanced (Node.yield_expr i _) s = Balanced-refl s
  visit_part-Balanced (Node.comptime i _) s = Balanced-refl s
  visit_part-Balanced (Node.macro_invoke i _ _) s = Balanced-refl s

  visit_else-Balanced : (m : Maybe) (s : Analysis) → Balanced s (visit_else m s)
  visit_else-Balanced absent s = Balanced-refl s
  visit_else-Balanced (present n) s = visit_part-Balanced n s

  visit_nodes-Balanced : (ns : Nodes) (s : Analysis) → Balanced s (visit_nodes ns s)
  visit_nodes-Balanced nil s = Balanced-refl s
  visit_nodes-Balanced (cons n ns) s =
      Balanced-trans (visit_part-Balanced n s) (visit_nodes-Balanced ns _)

-- The visit of any statement leaves the depth as it was and only adds reports, and if no variable
-- was deeper than that, none is: the variables of the blocks in it are gone.
pub visit_node-Balanced : (n : Node) (s : Analysis) → Balanced s (visit_node n s)
visit_node-Balanced n s = visit_part-Balanced n s
