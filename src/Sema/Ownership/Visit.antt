-- ===== src/Sema/Ownership/Visit.antt =====
-- The visitors of `OwnershipChecker`, and `check`. A node without a visitor is left alone.
use liva_lang.Base.{ℕ, suc, List, [], ◌∷◌, Bytes, if◌then◌else◌}
use liva_lang.Lexer.State.{SourceLocation}
use liva_lang.Ast.Nodes.{
  Node, Body, no_body, body, Maybe, absent, present, Nodes, nil, cons, Arms, no_arms, arm, Members,
  no_members, class_member,
}
use liva_lang.Sema.Ownership.Scopes.{
  Checker, use_variable, track_optional, track_pattern, push_scope, pop_scope, drop_scope_variables,
}
use liva_lang.Sema.Ownership.Types.{Setting, collect_func_decls}
use liva_lang.Sema.Ownership.Steps.{
  track_params, track_closure_params, declare, enter_loop, enter_let, Pending, note_pending, settle,
  remaining,
}
use liva_lang.Sema.Ownership.Targets.{
  assign_checks, take_borrow, Borrows, after_arg, arg_borrows, release_args,
}

-- `pushTypeParams` and `popTypeParams`
unfoldable pub push_type_params : List Bytes → Checker → Checker
push_type_params ps c = record c { type_params = ps ∷ c.type_params }

abbrev pub rest_params : List (List Bytes) → List (List Bytes)
rest_params [] = []
rest_params (ps ∷ pss) = pss

unfoldable pub pop_type_params : Checker → Checker
pop_type_params c = record c { type_params = rest_params c.type_params }

-- The end of a scope
unfoldable pub leave : Checker → Checker
unfolding pop_scope drop_scope_variables
leave c = pop_scope (drop_scope_variables c)

unfoldable mutual
  unfolding use_variable track_pattern push_scope pop_scope drop_scope_variables push_type_params
      pop_type_params leave track_params track_closure_params declare enter_loop enter_let
      note_pending settle remaining assign_checks take_borrow after_arg arg_borrows release_args

  pub visit : Setting → Node → Checker → Checker
  visit s (Node.func_decl i n ts ps b) c =
      pop_type_params
        (leave (visit_body s b (track_params s ps (push_scope (push_type_params ts c)))))
  visit s (Node.test_decl i n b) c = pop_scope (visit_body s b (push_scope c))
  visit s (Node.class_decl i n ts ms) c =
      pop_type_params (visit_members s ms (push_type_params ts c))
  visit s (Node.impl_decl i n ts ms) c = pop_type_params (visit_all s ms (push_type_params ts c))
  visit s (Node.protocol_decl i n ts ms) c =
      pop_type_params (visit_all s ms (push_type_params ts c))
  visit s (Node.struct_decl i n ts fs) c = pop_type_params (visit_all s fs (push_type_params ts c))
  visit s (Node.field_decl i n g w d l e) c =
      visit_maybe s e (visit_maybe s l (visit_maybe s d (visit_maybe s w (visit_maybe s g c))))
  visit s (Node.var_decl i n t m e) c = declare s i n t m e (visit_maybe s e c)
  visit s (Node.block_stmt i ns) c = leave (visit_stmts s 0 ns [] (push_scope c))
  visit s (Node.return_stmt i e) c = visit_maybe s e c
  visit s (Node.expr_stmt i e) c = visit s e c
  visit s (Node.if_stmt i e t f) c = visit_maybe s f (visit s t (visit s e c))
  visit s (Node.while_stmt i e b) c = visit s b (visit s e c)
  visit s (Node.for_stmt i n e b) c = leave (visit s b (enter_loop s i n e (visit s e c)))
  visit s (Node.if_let_stmt i n e t f) c =
      visit_maybe s f (leave (visit s t (enter_let s i n e (visit s e c))))
  visit s (Node.while_let_stmt i n e b) c = leave (visit s b (enter_let s i n e (visit s e c)))
  visit s (Node.identifier i n) c = use_variable n i.start c
  visit s (Node.assign i op t v) c = visit s t (assign_checks s i op t v (visit s v c))
  visit s (Node.call i f xs) c =
      let r = visit_args s f 0 xs [] (visit s f c) in release_args r.0 r.1
  visit s (Node.binary i op l r) c = visit s r (visit s l c)
  visit s (Node.ref_expr i e m) c =
      let r = take_borrow i e m c in let d = visit s e r.0 in if r.1 then d else r.0
  visit s (Node.unary i op e) c = visit s e c
  visit s (Node.member i e n) c = visit s e c
  visit s (Node.index i b x) c = visit s x (visit s b c)
  visit s (Node.struct_literal i n ns vs) c = visit_all s vs c
  visit s (Node.match_expr i e arms) c = visit_arms s i.start arms (visit s e c)
  visit s (Node.array_literal i es) c = visit_all s es c
  visit s (Node.tuple_literal i es) c = visit_all s es c
  visit s (Node.cast i e t o) c = visit s e c
  visit s (Node.is_expr i e t) c = visit s e c
  visit s (Node.group i e) c = visit s e c
  visit s (Node.range i a b n) c = visit s b (visit s a c)
  visit s (Node.unwrap i e) c = visit s e c
  visit s (Node.closure i ps b) c =
      leave (visit_maybe s b (track_closure_params s i.start ps (push_scope c)))
  visit s (Node.try_expr i e) c = visit s e c
  visit s (Node.ternary i e t f) c = visit s f (visit s t (visit s e c))
  visit s (Node.await_expr i e) c = visit s e c
  visit s (Node.yield_expr i e) c = visit_maybe s e c
  visit s (Node.comptime i b) c = visit_maybe s b c
  visit s (Node.macro_invoke i n e) c = visit_maybe s e c
  visit s _ c = c

  pub visit_body : Setting → Body → Checker → Checker
  visit_body s no_body c = c
  visit_body s (body i ns) c = leave (visit_stmts s 0 ns [] (push_scope c))

  pub visit_maybe : Setting → Maybe → Checker → Checker
  visit_maybe s absent c = c
  visit_maybe s (present n) c = visit s n c

  pub visit_all : Setting → Nodes → Checker → Checker
  visit_all s nil c = c
  visit_all s (cons n ns) c = visit_all s ns (visit s n c)

  pub visit_members : Setting → Members → Checker → Checker
  visit_members s no_members c = c
  visit_members s (class_member f m ms) c = visit_members s ms (visit_maybe s m (visit_maybe s f c))

  pub visit_arms : Setting → SourceLocation → Arms → Checker → Checker
  visit_arms s loc no_arms c = c
  visit_arms s loc (arm p g b xs) c =
      visit_arms s loc xs
        (leave (visit_maybe s b (visit_maybe s g (track_optional p loc (push_scope c)))))

  -- The loop of `visitBlockStmt`, from statement `i` on
  pub visit_stmts : Setting → ℕ → Nodes → Pending → Checker → Checker
  visit_stmts s i nil ps c = c
  visit_stmts s i (cons n ns) ps c =
      let d = visit s n c in
      let qs = note_pending ns i n d ps in visit_stmts s (suc i) ns (remaining i qs) (settle i qs d)

  -- The loop of `visitCallExpr` over the arguments, from number `k` on
  pub visit_args : Setting → Node → ℕ → Nodes → Borrows → Checker → Borrows × Checker
  visit_args s f k nil bs c = (bs, c)
  visit_args s f k (cons a xs) bs c =
      let d = visit s a c in visit_args s f (suc k) xs (arg_borrows a d bs) (after_arg s f k a d)

abbrev pub start_state : Checker → Checker
start_state c = record c { type_params = [] }

-- What `check` knows of the unit: the names given to the checker, and the functions it collects
unfoldable pub unit_setting : List Bytes → List Bytes → Nodes → Setting
unfolding collect_func_decls
unit_setting classes drops decls = record {
  class_names = classes;
  drop_type_names = drops;
  funcs = collect_func_decls decls [];
}

-- `check`
unfoldable pub check : List Bytes → List Bytes → Nodes → Checker → Checker
unfolding unit_setting visit push_scope pop_scope
check classes drops decls c =
    pop_scope (visit_all (unit_setting classes drops decls) decls (push_scope (start_state c)))
