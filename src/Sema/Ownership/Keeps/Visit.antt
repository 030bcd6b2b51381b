-- ===== src/Sema/Ownership/Keeps/Visit.antt =====
-- The visitors: lemmas on the scopes, the pointers and the claims.
use liva_lang.Base.{ℕ, suc, [], Bytes, ◌≡◌, refl}
use liva_lang.Lexer.State.{SourceLocation}
use liva_lang.Ast.Nodes.{
  Node, Info, Body, no_body, body, Maybe, absent, present, Nodes, nil, cons, Arms, no_arms, arm,
  Members, no_members, class_member,
}
use liva_lang.Sema.Ownership.Scopes.{Checker}
use liva_lang.Sema.Ownership.Types.{Setting}
use liva_lang.Sema.Ownership.Steps.{enter_let, Pending, settle, note_pending, remaining}
use liva_lang.Sema.Ownership.Targets.{take_borrow, Borrows, after_arg, arg_borrows}
use liva_lang.Sema.Ownership.Visit.{
  visit, visit_body, visit_maybe, visit_all, visit_members, visit_arms, visit_stmts, visit_args,
  leave,
}
use liva_lang.Sema.Ownership.Live.{scope_names}
use liva_lang.Sema.Ownership.Keeps.{Keeps, Keeps-refl, Keeps-trans, Keeps-if}
use liva_lang.Sema.Ownership.Keeps.Scoped.{
  scope-Keeps, scope-names, empty_scope-Keeps, type_params-Keeps,
}
use liva_lang.Sema.Ownership.Keeps.Steps.{
  use_variable-Keeps, track_params-Keeps, track_closure_params-Keeps, track_optional-Keeps,
  consume-Keeps, declare-Keeps, enter_loop-Keeps, enter_let-Keeps, settle-Keeps,
}
use liva_lang.Sema.Ownership.Keeps.Targets.{
  assign_checks-Keeps, take_borrow-Keeps, after_arg-Keeps, release_args-Keeps,
}

-- The scope of a binding by `let`.
let-Keeps :
    (s : Setting) (i : Info) (name : Bytes) (e : Node) (c d : Checker)
    → Keeps (enter_let s i name e c) d
    → Keeps c (leave d)
let-Keeps s i name e c d h =
    Keeps-trans (consume-Keeps e i.start c)
      (scope-Keeps _ d (Keeps-trans (enter_let-Keeps s i name e c) h))

mutual
  unfolding visit

  visit_steady : (s : Setting) (n : Node) (c : Checker) → Keeps c (visit s n c)
  visit_steady s (Node.func_decl i n ts ps b) c =
      type_params-Keeps ts c _
        (scope-Keeps _ _ (Keeps-trans (track_params-Keeps s ps _) (visit_body-Keeps s b _)))
  visit_steady s (Node.var_decl i n t m e) c =
      Keeps-trans (visit_maybe-Keeps s e c) (declare-Keeps s i n t m e _)
  visit_steady s (Node.struct_decl i n ts ms) c = type_params-Keeps ts c _ (visit_all-Keeps s ms _)
  visit_steady s (Node.field_decl i n g w d l e) c = Keeps-trans (visit_maybe-Keeps s g c) (
      Keeps-trans (visit_maybe-Keeps s w _) (
        Keeps-trans (visit_maybe-Keeps s d _)
          (Keeps-trans (visit_maybe-Keeps s l _) (visit_maybe-Keeps s e _))))
  visit_steady s (Node.enum_decl i _ _) c = Keeps-refl c
  visit_steady s (Node.enum_case_decl i _) c = Keeps-refl c
  visit_steady s (Node.impl_decl i n ts ms) c = type_params-Keeps ts c _ (visit_all-Keeps s ms _)
  visit_steady s (Node.protocol_decl i n ts ms) c =
      type_params-Keeps ts c _ (visit_all-Keeps s ms _)
  visit_steady s (Node.import_decl i _) c = Keeps-refl c
  visit_steady s (Node.type_alias_decl i _) c = Keeps-refl c
  visit_steady s (Node.macro_decl i _) c = Keeps-refl c
  visit_steady s (Node.class_decl i n ts ms) c =
      type_params-Keeps ts c _ (visit_members-Keeps s ms _)
  visit_steady s (Node.test_decl i n b) c =
      empty_scope-Keeps c _ (visit_body-Keeps s b _) (visit_body-names s b _)
  visit_steady s (Node.expr_stmt i e) c = visit_steady s e c
  visit_steady s (Node.return_stmt i e) c = visit_maybe-Keeps s e c
  visit_steady s (Node.if_stmt i e t f) c =
      Keeps-trans (visit_steady s e c) (Keeps-trans (visit_steady s t _) (visit_maybe-Keeps s f _))
  visit_steady s (Node.while_stmt i e b) c = Keeps-trans (visit_steady s e c) (visit_steady s b _)
  visit_steady s (Node.for_stmt i n e b) c =
      Keeps-trans (visit_steady s e c)
        (scope-Keeps _ _ (Keeps-trans (enter_loop-Keeps s i n e _) (visit_steady s b _)))
  visit_steady s (Node.block_stmt i ns) c = scope-Keeps c _ (visit_stmts-Keeps s 0 ns [] _)
  visit_steady s (Node.break_stmt i) c = Keeps-refl c
  visit_steady s (Node.continue_stmt i) c = Keeps-refl c
  visit_steady s (Node.if_let_stmt i n e t f) c =
      Keeps-trans (visit_steady s e c)
        (Keeps-trans (let-Keeps s i n e _ _ (visit_steady s t _)) (visit_maybe-Keeps s f _))
  visit_steady s (Node.while_let_stmt i n e b) c =
      Keeps-trans (visit_steady s e c) (let-Keeps s i n e _ _ (visit_steady s b _))
  visit_steady s (Node.integer_literal i _) c = Keeps-refl c
  visit_steady s (Node.float_literal i) c = Keeps-refl c
  visit_steady s (Node.bool_literal i _) c = Keeps-refl c
  visit_steady s (Node.string_literal i _) c = Keeps-refl c
  visit_steady s (Node.nil_literal i) c = Keeps-refl c
  visit_steady s (Node.identifier i n) c = use_variable-Keeps n i.start c
  visit_steady s (Node.binary i op l r) c = Keeps-trans (visit_steady s l c) (visit_steady s r _)
  visit_steady s (Node.unary i op e) c = visit_steady s e c
  visit_steady s (Node.call i f xs) c = Keeps-trans (visit_steady s f c) (
      Keeps-trans (visit_args-Keeps s f 0 xs [] (visit s f c))
        (release_args-Keeps (visit_args s f 0 xs [] (visit s f c)).0 _))
  visit_steady s (Node.member i e n) c = visit_steady s e c
  visit_steady s (Node.index i b x) c = Keeps-trans (visit_steady s b c) (visit_steady s x _)
  visit_steady s (Node.assign i op t v) c =
      Keeps-trans (visit_steady s v c)
        (Keeps-trans (assign_checks-Keeps s i op t v _) (visit_steady s t _))
  visit_steady s (Node.struct_literal i n ns vs) c = visit_all-Keeps s vs c
  visit_steady s (Node.match_expr i e xs) c =
      Keeps-trans (visit_steady s e c) (visit_arms-Keeps s i.start xs _)
  visit_steady s (Node.array_literal i es) c = visit_all-Keeps s es c
  visit_steady s (Node.tuple_literal i es) c = visit_all-Keeps s es c
  visit_steady s (Node.cast i e t o) c = visit_steady s e c
  visit_steady s (Node.is_expr i e t) c = visit_steady s e c
  visit_steady s (Node.ref_expr i e m) c =
      Keeps-trans (take_borrow-Keeps i e m c)
        (Keeps-if (take_borrow i e m c).1 (visit_steady s e _) (Keeps-refl _))
  visit_steady s (Node.group i e) c = visit_steady s e c
  visit_steady s (Node.range i b x o) c = Keeps-trans (visit_steady s b c) (visit_steady s x _)
  visit_steady s (Node.unwrap i e) c = visit_steady s e c
  visit_steady s (Node.closure i ps b) c =
      scope-Keeps c _
        (Keeps-trans (track_closure_params-Keeps s i.start ps _) (visit_maybe-Keeps s b _))
  visit_steady s (Node.try_expr i e) c = visit_steady s e c
  visit_steady s (Node.ternary i e t f) c =
      Keeps-trans (visit_steady s e c) (Keeps-trans (visit_steady s t _) (visit_steady s f _))
  visit_steady s (Node.await_expr i e) c = visit_steady s e c
  visit_steady s (Node.yield_expr i e) c = visit_maybe-Keeps s e c
  visit_steady s (Node.comptime i e) c = visit_maybe-Keeps s e c
  visit_steady s (Node.macro_invoke i n e) c = visit_maybe-Keeps s e c

  visit_body-Keeps : (s : Setting) (b : Body) (c : Checker) → Keeps c (visit_body s b c)
  visit_body-Keeps s no_body c = Keeps-refl c
  visit_body-Keeps s (body i ns) c = scope-Keeps c _ (visit_stmts-Keeps s 0 ns [] _)

  visit_body-names :
      (s : Setting) (b : Body) (c : Checker)
      → scope_names (visit_body s b c).scopes ≡ scope_names c.scopes
  visit_body-names s no_body c = refl
  visit_body-names s (body i ns) c = scope-names c _ (visit_stmts-Keeps s 0 ns [] _)

  visit_maybe-Keeps : (s : Setting) (m : Maybe) (c : Checker) → Keeps c (visit_maybe s m c)
  visit_maybe-Keeps s absent c = Keeps-refl c
  visit_maybe-Keeps s (present n) c = visit_steady s n c

  pub visit_all-Keeps : (s : Setting) (ns : Nodes) (c : Checker) → Keeps c (visit_all s ns c)
  visit_all-Keeps s nil c = Keeps-refl c
  visit_all-Keeps s (cons n ns) c = Keeps-trans (visit_steady s n c) (visit_all-Keeps s ns _)

  visit_members-Keeps : (s : Setting) (ms : Members) (c : Checker) → Keeps c (visit_members s ms c)
  visit_members-Keeps s no_members c = Keeps-refl c
  visit_members-Keeps s (class_member f m ms) c =
      Keeps-trans (visit_maybe-Keeps s f c)
        (Keeps-trans (visit_maybe-Keeps s m _) (visit_members-Keeps s ms _))

  visit_arms-Keeps :
      (s : Setting) (loc : SourceLocation) (xs : Arms) (c : Checker)
      → Keeps c (visit_arms s loc xs c)
  visit_arms-Keeps s loc no_arms c = Keeps-refl c
  visit_arms-Keeps s loc (arm p g b xs) c =
      Keeps-trans
        (scope-Keeps c _ (
          Keeps-trans (track_optional-Keeps p loc _)
            (Keeps-trans (visit_maybe-Keeps s g _) (visit_maybe-Keeps s b _))))
        (visit_arms-Keeps s loc xs _)

  visit_stmts-Keeps :
      (s : Setting) (i : ℕ) (ns : Nodes) (ps : Pending) (c : Checker)
      → Keeps c (visit_stmts s i ns ps c)
  visit_stmts-Keeps s i nil ps c = Keeps-refl c
  visit_stmts-Keeps s i (cons n ns) ps c =
      let d = visit s n c in
      let qs = note_pending ns i n d ps in
      Keeps-trans (visit_steady s n c) (
        Keeps-trans (settle-Keeps i qs d)
          (visit_stmts-Keeps s (suc i) ns (remaining i qs) (settle i qs d)))

  visit_args-Keeps :
      (s : Setting) (f : Node) (k : ℕ) (xs : Nodes) (bs : Borrows) (c : Checker)
      → Keeps c (visit_args s f k xs bs c).1
  visit_args-Keeps s f k nil bs c = Keeps-refl c
  visit_args-Keeps s f k (cons a xs) bs c =
      let d = visit s a c in
      Keeps-trans (visit_steady s a c) (
        Keeps-trans (after_arg-Keeps s f k a d)
          (visit_args-Keeps s f (suc k) xs (arg_borrows a d bs) (after_arg s f k a d)))

-- The visit of any tree leaves the names of the enclosing scopes and the type parameters as they
-- were and only adds reports. If each pointer of `allVariables_` led to a variable on the stack,
-- it still does, and if every variable showed a claim of the automaton, it still does.
pub visit-Keeps : (s : Setting) (n : Node) (c : Checker) → Keeps c (visit s n c)
visit-Keeps s n c = visit_steady s n c
