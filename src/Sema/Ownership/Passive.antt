-- ===== src/Sema/Ownership/Passive.antt =====
-- The visitors that only call `visitChildren`, or do the same by hand.
use liva_lang.Base.{List, [], ◌∷◌, ◌++◌, Bool, Bytes, ◌≡◌, refl, ap, sym, ◌∙◌}
use liva_lang.Ast.Types.Repr.{TypeRepr}
use liva_lang.Ast.Nodes.{Node, Info, BinaryOp, UnaryOp, Maybe, absent, present, Nodes, nil, cons}
use liva_lang.Ast.Walk.{children, emit, emit_all}
use liva_lang.Sema.Ownership.Scopes.{Checker}
use liva_lang.Sema.Ownership.Types.{Setting}
use liva_lang.Sema.Ownership.Visit.{visit, visit_maybe, visit_all}

-- The callback of `visitChildren` on some nodes.
abbrev pub visit_each : Setting → List Node → Checker → Checker
visit_each s [] c = c
visit_each s (n ∷ ns) c = visit_each s ns (visit s n c)

-- The kinds of nodes without rules of their own.
pub data Passive : Node → Type 0 where
  field_decl : (i : Info) (n : Bytes) (g w d l e : Maybe) → Passive (Node.field_decl i n g w d l e)
  return_stmt : (i : Info) (e : Maybe) → Passive (Node.return_stmt i e)
  expr_stmt : (i : Info) (e : Node) → Passive (Node.expr_stmt i e)
  if_stmt : (i : Info) (e t : Node) (f : Maybe) → Passive (Node.if_stmt i e t f)
  while_stmt : (i : Info) (e b : Node) → Passive (Node.while_stmt i e b)
  binary : (i : Info) (op : BinaryOp) (l r : Node) → Passive (Node.binary i op l r)
  unary : (i : Info) (op : UnaryOp) (e : Node) → Passive (Node.unary i op e)
  member : (i : Info) (e : Node) (n : Bytes) → Passive (Node.member i e n)
  index : (i : Info) (b x : Node) → Passive (Node.index i b x)
  struct_literal :
      (i : Info) (n : Bytes) (ns : List Bytes) (vs : Nodes)
      → Passive (Node.struct_literal i n ns vs)
  array_literal : (i : Info) (es : Nodes) → Passive (Node.array_literal i es)
  tuple_literal : (i : Info) (es : Nodes) → Passive (Node.tuple_literal i es)
  cast : (i : Info) (e : Node) (t : TypeRepr) (o : Bool) → Passive (Node.cast i e t o)
  is_expr : (i : Info) (e : Node) (t : TypeRepr) → Passive (Node.is_expr i e t)
  group : (i : Info) (e : Node) → Passive (Node.group i e)
  range : (i : Info) (a b : Node) (o : Bool) → Passive (Node.range i a b o)
  unwrap : (i : Info) (e : Node) → Passive (Node.unwrap i e)
  try_expr : (i : Info) (e : Node) → Passive (Node.try_expr i e)
  ternary : (i : Info) (e t f : Node) → Passive (Node.ternary i e t f)
  await_expr : (i : Info) (e : Node) → Passive (Node.await_expr i e)
  yield_expr : (i : Info) (e : Maybe) → Passive (Node.yield_expr i e)
  comptime : (i : Info) (e : Maybe) → Passive (Node.comptime i e)
  macro_invoke : (i : Info) (n : Bytes) (e : Maybe) → Passive (Node.macro_invoke i n e)

visit_each-append :
    (s : Setting) (a b : List Node) (c : Checker)
    → visit_each s (a ++ b) c ≡ visit_each s b (visit_each s a c)
visit_each-append s [] b c = refl
visit_each-append s (n ∷ a) b c = visit_each-append s a b (visit s n c)

visit_maybe-each :
    (s : Setting) (m : Maybe) (c : Checker) → visit_maybe s m c ≡ visit_each s (emit m) c
visit_maybe-each s absent c = unfold visit in refl
visit_maybe-each s (present n) c = unfold visit in refl

visit_all-each :
    (s : Setting) (ns : Nodes) (c : Checker) → visit_all s ns c ≡ visit_each s (emit_all ns) c
unfolding visit emit_all
visit_all-each s nil c = refl
visit_all-each s (cons n ns) c = visit_all-each s ns (visit s n c)

-- A part and then the rest.
then_each :
    (s : Setting) (m : Maybe) (b : List Node) (c : Checker)
    → visit_each s b (visit_maybe s m c) ≡ visit_each s (emit m ++ b) c
then_each s m b c =
    ap (visit_each s b) (visit_maybe-each s m c) ∙ sym (visit_each-append s (emit m) b c)

-- The visit of such a node is the visit of what `forEachChild` gives, in that order.
pub visit-children :
    (s : Setting) (n : Node) (c : Checker) → Passive n → visit s n c ≡ visit_each s (children n) c
unfolding visit children
visit-children s _ c (Passive.field_decl i n g w d l e) =
    visit_maybe-each s e _
    ∙ then_each s l (emit e) _
    ∙ then_each s d (emit l ++ emit e) _
    ∙ then_each s w (emit d ++ (emit l ++ emit e)) _
    ∙ then_each s g (emit w ++ (emit d ++ (emit l ++ emit e))) c
visit-children s _ c (Passive.return_stmt i e) = visit_maybe-each s e c
visit-children s _ c (Passive.expr_stmt i e) = refl
visit-children s _ c (Passive.if_stmt i e t f) = visit_maybe-each s f _
visit-children s _ c (Passive.while_stmt i e b) = refl
visit-children s _ c (Passive.binary i op l r) = refl
visit-children s _ c (Passive.unary i op e) = refl
visit-children s _ c (Passive.member i e n) = refl
visit-children s _ c (Passive.index i b x) = refl
visit-children s _ c (Passive.struct_literal i n ns vs) = visit_all-each s vs c
visit-children s _ c (Passive.array_literal i es) = visit_all-each s es c
visit-children s _ c (Passive.tuple_literal i es) = visit_all-each s es c
visit-children s _ c (Passive.cast i e t o) = refl
visit-children s _ c (Passive.is_expr i e t) = refl
visit-children s _ c (Passive.group i e) = refl
visit-children s _ c (Passive.range i a b o) = refl
visit-children s _ c (Passive.unwrap i e) = refl
visit-children s _ c (Passive.try_expr i e) = refl
visit-children s _ c (Passive.ternary i e t f) = refl
visit-children s _ c (Passive.await_expr i e) = refl
visit-children s _ c (Passive.yield_expr i e) = visit_maybe-each s e c
visit-children s _ c (Passive.comptime i e) = visit_maybe-each s e c
visit-children s _ c (Passive.macro_invoke i n e) = visit_maybe-each s e c
