-- ===== src/Ast/Walk/Laws.antt =====
-- `walkSubtree` beside `forEachChild`.
use mathlib.Core.List.{append-nil, append_assoc}
use liva_lang.Base.{
  ℕ, zero, suc, ◌≤◌, length, length-append, arith, List, [], ◌∷◌, ◌++◌, ◌≡◌, refl, sym, ap, ◌∙◌,
}
use liva_lang.Ast.Nodes.{
  Node, Maybe, absent, present, Body, no_body, body, Nodes, nil, cons, Params, no_params, param,
  Arms, no_arms, arm, Members, no_members, class_member,
}
use liva_lang.Ast.Listed.{
  below, listed, listed_maybe, listed_body, listed_all, listed_defaults, listed_arms,
  listed_members,
}
use liva_lang.Ast.Walk.{
  emit, emit_body, emit_all, emit_defaults, emit_arms, emit_members, children, walk, on_each,
  subtree,
}

-- The all_listed of some nodes, one after the other.
unfoldable pub all_listed : List Node → List Node
unfolding below
all_listed [] = []
all_listed (n ∷ ns) = listed n ++ all_listed ns

all_listed-append : (a b : List Node) → all_listed (a ++ b) ≡ all_listed a ++ all_listed b
unfolding all_listed
all_listed-append [] b = refl
all_listed-append (n ∷ a) b =
    ap (◌++◌ (listed n)) (all_listed-append a b)
    ∙ sym (append_assoc (listed n) (all_listed a) (all_listed b))

emit-listed : (m : Maybe) → listed_maybe m ≡ all_listed (emit m)
unfolding all_listed
emit-listed absent = unfold below in refl
emit-listed (present n) = unfold below in sym (append-nil (listed n))

emit_body-listed : (b : Body) → listed_body b ≡ all_listed (emit_body b)
emit_body-listed no_body = unfold below all_listed in refl
emit_body-listed (body i ns) =
    unfold below all_listed in sym (append-nil (listed (Node.block_stmt i ns)))

emit_all-listed : (ns : Nodes) → listed_all ns ≡ all_listed (emit_all ns)
unfolding below all_listed emit_all
emit_all-listed nil = refl
emit_all-listed (cons n ns) = ap (◌++◌ (listed n)) (emit_all-listed ns)

glue :
    {x y : List Node} (a b : List Node)
    → x ≡ all_listed a
    → y ≡ all_listed b
    → x ++ y ≡ all_listed (a ++ b)
glue a b e f = rw (e, f) (sym (all_listed-append a b))

front :
    (n : Node) {x : List Node} (b : List Node)
    → x ≡ all_listed b
    → listed n ++ x ≡ all_listed (n ∷ b)
unfolding all_listed
front n b e = ap (◌++◌ (listed n)) e

one : (n : Node) → listed n ≡ all_listed (n ∷ [])
unfolding all_listed
one n = sym (append-nil (listed n))

emit_defaults-listed : (ps : Params) → listed_defaults ps ≡ all_listed (emit_defaults ps)
unfolding below emit_defaults
emit_defaults-listed no_params = unfold all_listed in refl
emit_defaults-listed (param p d ps) =
    glue (emit d) (emit_defaults ps) (emit-listed d) (emit_defaults-listed ps)

emit_arms-listed : (arms : Arms) → listed_arms arms ≡ all_listed (emit_arms arms)
unfolding below emit_arms
emit_arms-listed no_arms = unfold all_listed in refl
emit_arms-listed (arm p g b arms) =
    glue (emit g) (emit b ++ emit_arms arms) (emit-listed g)
      (glue (emit b) (emit_arms arms) (emit-listed b) (emit_arms-listed arms))

emit_members-listed : (ms : Members) → listed_members ms ≡ all_listed (emit_members ms)
unfolding below emit_members
emit_members-listed no_members = unfold all_listed in refl
emit_members-listed (class_member f m ms) =
    glue (emit f) (emit m ++ emit_members ms) (emit-listed f)
      (glue (emit m) (emit_members ms) (emit-listed m) (emit_members-listed ms))

-- The list of a tree is made of the lists of the children that `forEachChild` has.
listed-children : (n : Node) → listed n ≡ n ∷ all_listed (children n)
unfolding below children
listed-children (Node.func_decl i n ts ps b) =
    ap (◌∷◌ (Node.func_decl i n ts ps b))
      (glue (emit_defaults ps) (emit_body b) (emit_defaults-listed ps) (emit_body-listed b))
listed-children (Node.var_decl i n t m e) = ap (◌∷◌ (Node.var_decl i n t m e)) (emit-listed e)
listed-children (Node.struct_decl i n ts fs) =
    ap (◌∷◌ (Node.struct_decl i n ts fs)) (emit_all-listed fs)
listed-children (Node.field_decl i n g s w d l) = ap (◌∷◌ (Node.field_decl i n g s w d l)) (
    glue (emit g) (emit s ++ (emit w ++ (emit d ++ emit l))) (emit-listed g) (
      glue (emit s) (emit w ++ (emit d ++ emit l)) (emit-listed s) (
        glue (emit w) (emit d ++ emit l) (emit-listed w)
          (glue (emit d) (emit l) (emit-listed d) (emit-listed l)))))
listed-children (Node.enum_decl i n cs) = ap (◌∷◌ (Node.enum_decl i n cs)) (emit_all-listed cs)
listed-children (Node.impl_decl i n ts ms) =
    ap (◌∷◌ (Node.impl_decl i n ts ms)) (emit_all-listed ms)
listed-children (Node.protocol_decl i n ts ms) =
    ap (◌∷◌ (Node.protocol_decl i n ts ms)) (emit_all-listed ms)
listed-children (Node.class_decl i n ts ms) =
    ap (◌∷◌ (Node.class_decl i n ts ms)) (emit_members-listed ms)
listed-children (Node.test_decl i n b) = ap (◌∷◌ (Node.test_decl i n b)) (emit_body-listed b)
listed-children (Node.expr_stmt i e) = ap (◌∷◌ (Node.expr_stmt i e)) (one e)
listed-children (Node.return_stmt i e) = ap (◌∷◌ (Node.return_stmt i e)) (emit-listed e)
listed-children (Node.if_stmt i c t e) =
    ap (◌∷◌ (Node.if_stmt i c t e)) (front c _ (front t _ (emit-listed e)))
listed-children (Node.while_stmt i c b) = ap (◌∷◌ (Node.while_stmt i c b)) (front c _ (one b))
listed-children (Node.for_stmt i n e b) = ap (◌∷◌ (Node.for_stmt i n e b)) (front e _ (one b))
listed-children (Node.block_stmt i ss) = ap (◌∷◌ (Node.block_stmt i ss)) (emit_all-listed ss)
listed-children (Node.if_let_stmt i n o t e) =
    ap (◌∷◌ (Node.if_let_stmt i n o t e)) (front o _ (front t _ (emit-listed e)))
listed-children (Node.while_let_stmt i n o b) =
    ap (◌∷◌ (Node.while_let_stmt i n o b)) (front o _ (one b))
listed-children (Node.binary i op l r) = ap (◌∷◌ (Node.binary i op l r)) (front l _ (one r))
listed-children (Node.unary i op e) = ap (◌∷◌ (Node.unary i op e)) (one e)
listed-children (Node.call i c xs) = ap (◌∷◌ (Node.call i c xs)) (front c _ (emit_all-listed xs))
listed-children (Node.member i o n) = ap (◌∷◌ (Node.member i o n)) (one o)
listed-children (Node.index i b x) = ap (◌∷◌ (Node.index i b x)) (front b _ (one x))
listed-children (Node.assign i op t v) = ap (◌∷◌ (Node.assign i op t v)) (front t _ (one v))
listed-children (Node.struct_literal i n ns vs) =
    ap (◌∷◌ (Node.struct_literal i n ns vs)) (emit_all-listed vs)
listed-children (Node.match_expr i s arms) =
    ap (◌∷◌ (Node.match_expr i s arms)) (front s _ (emit_arms-listed arms))
listed-children (Node.array_literal i es) = ap (◌∷◌ (Node.array_literal i es)) (emit_all-listed es)
listed-children (Node.tuple_literal i es) = ap (◌∷◌ (Node.tuple_literal i es)) (emit_all-listed es)
listed-children (Node.cast i e t o) = ap (◌∷◌ (Node.cast i e t o)) (one e)
listed-children (Node.is_expr i e t) = ap (◌∷◌ (Node.is_expr i e t)) (one e)
listed-children (Node.ref_expr i e m) = ap (◌∷◌ (Node.ref_expr i e m)) (one e)
listed-children (Node.group i e) = ap (◌∷◌ (Node.group i e)) (one e)
listed-children (Node.range i s e inc) = ap (◌∷◌ (Node.range i s e inc)) (front s _ (one e))
listed-children (Node.unwrap i e) = ap (◌∷◌ (Node.unwrap i e)) (one e)
listed-children (Node.closure i ps b) = ap (◌∷◌ (Node.closure i ps b)) (emit-listed b)
listed-children (Node.try_expr i e) = ap (◌∷◌ (Node.try_expr i e)) (one e)
listed-children (Node.ternary i c t e) =
    ap (◌∷◌ (Node.ternary i c t e)) (front c _ (front t _ (one e)))
listed-children (Node.await_expr i e) = ap (◌∷◌ (Node.await_expr i e)) (one e)
listed-children (Node.yield_expr i e) = ap (◌∷◌ (Node.yield_expr i e)) (emit-listed e)
listed-children (Node.comptime i b) = ap (◌∷◌ (Node.comptime i b)) (emit-listed b)
listed-children (Node.macro_invoke i n e) = ap (◌∷◌ (Node.macro_invoke i n e)) (emit-listed e)
listed-children (Node.enum_case_decl i n) = unfold all_listed in refl
listed-children (Node.import_decl i p) = unfold all_listed in refl
listed-children (Node.type_alias_decl i n) = unfold all_listed in refl
listed-children (Node.macro_decl i n) = unfold all_listed in refl
listed-children (Node.break_stmt i) = unfold all_listed in refl
listed-children (Node.continue_stmt i) = unfold all_listed in refl
listed-children (Node.integer_literal i v) = unfold all_listed in refl
listed-children (Node.float_literal i) = unfold all_listed in refl
listed-children (Node.bool_literal i v) = unfold all_listed in refl
listed-children (Node.string_literal i v) = unfold all_listed in refl
listed-children (Node.nil_literal i) = unfold all_listed in refl
listed-children (Node.identifier i n) = unfold all_listed in refl

on_each-listed :
    (k : ℕ) (fn : Node → List Node) (ns : List Node)
    → ((n : Node) → length (listed n) ≤ k → fn n ≡ listed n)
    → length (all_listed ns) ≤ k
    → on_each fn ns ≡ all_listed ns
unfolding on_each all_listed
on_each-listed k fn [] g h = refl
on_each-listed k fn (n ∷ ns) g h =
    let e = length-append (listed n) (all_listed ns) in
    ap (◌++◌ (fn n)) (on_each-listed k fn ns g (omega (arith, h, e)))
    ∙ ap (λ (l : List Node). l ++ all_listed ns) (g n (omega (arith, h, e)))

walk-listed : (k : ℕ) (n : Node) → length (listed n) ≤ k → walk k n ≡ listed n
unfolding walk
walk-listed zero n h = absurd (omega (arith, h))
walk-listed (suc k) n h =
    let e = listed-children n in
    ap (◌∷◌ n) (
      on_each-listed k (walk k) (children n) (λ m g. walk-listed k m g)
        (omega (arith, h, ap length e)))
    ∙ sym e

-- `walkSubtree`, which asks `forEachChild` for the children of each node that it meets, gives its
-- callback every node of the tree once, each before its parts, and as many levels as the tree has
-- nodes are enough.
pub subtree-listed : (n : Node) → subtree n ≡ listed n
unfolding subtree
subtree-listed n = walk-listed (length (listed n)) n (omega arith)
