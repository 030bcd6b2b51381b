-- ===== src/Ast/Walk.antt =====
-- `forEachChild` and `walkSubtree` of src/AST/ASTWalk.cpp: the nodes that the callback is given, in
-- their order. Every kind of node is known, so `walkSubtree` answers true.
use liva_lang.Base.{ℕ, zero, suc, List, [], ◌∷◌, ◌++◌, length}
use liva_lang.Ast.Listed.{below, listed}
use liva_lang.Ast.Nodes.{
  Node, Maybe, absent, present, Body, no_body, body, Nodes, nil, cons, Params, no_params, param,
  Arms, no_arms, arm, Members, no_members, class_member,
}
pub mod Laws
mod Tests

-- `emit`: nothing for a null child
abbrev pub emit : Maybe → List Node
emit absent = []
emit (present n) = n ∷ []

abbrev pub emit_body : Body → List Node
emit_body no_body = []
emit_body (body i ns) = Node.block_stmt i ns ∷ []

unfoldable pub emit_all : Nodes → List Node
emit_all nil = []
emit_all (cons n ns) = n ∷ emit_all ns

unfoldable pub emit_defaults : Params → List Node
emit_defaults no_params = []
emit_defaults (param p d ps) = emit d ++ emit_defaults ps

unfoldable pub emit_arms : Arms → List Node
emit_arms no_arms = []
emit_arms (arm p g b arms) = emit g ++ (emit b ++ emit_arms arms)

unfoldable pub emit_members : Members → List Node
emit_members no_members = []
emit_members (class_member f m ms) = emit f ++ (emit m ++ emit_members ms)

unfoldable pub children : Node → List Node
unfolding emit_all emit_defaults emit_arms emit_members
children (Node.func_decl i n ts ps b) = emit_defaults ps ++ emit_body b
children (Node.var_decl i n t m e) = emit e
children (Node.struct_decl i n ts fs) = emit_all fs
children (Node.field_decl i n g s w d l) = emit g ++ (emit s ++ (emit w ++ (emit d ++ emit l)))
children (Node.enum_decl i n cs) = emit_all cs
children (Node.impl_decl i n ts ms) = emit_all ms
children (Node.protocol_decl i n ts ms) = emit_all ms
children (Node.class_decl i n ts ms) = emit_members ms
children (Node.test_decl i n b) = emit_body b
children (Node.expr_stmt i e) = e ∷ []
children (Node.return_stmt i e) = emit e
children (Node.if_stmt i c t e) = c ∷ t ∷ emit e
children (Node.while_stmt i c b) = c ∷ b ∷ []
children (Node.for_stmt i n e b) = e ∷ b ∷ []
children (Node.block_stmt i ss) = emit_all ss
children (Node.if_let_stmt i n o t e) = o ∷ t ∷ emit e
children (Node.while_let_stmt i n o b) = o ∷ b ∷ []
children (Node.binary i op l r) = l ∷ r ∷ []
children (Node.unary i op e) = e ∷ []
children (Node.call i c xs) = c ∷ emit_all xs
children (Node.member i o n) = o ∷ []
children (Node.index i b x) = b ∷ x ∷ []
children (Node.assign i op t v) = t ∷ v ∷ []
children (Node.struct_literal i n ns vs) = emit_all vs
children (Node.match_expr i s arms) = s ∷ emit_arms arms
children (Node.array_literal i es) = emit_all es
children (Node.tuple_literal i es) = emit_all es
children (Node.cast i e t o) = e ∷ []
children (Node.is_expr i e t) = e ∷ []
children (Node.ref_expr i e m) = e ∷ []
children (Node.group i e) = e ∷ []
children (Node.range i s e inc) = s ∷ e ∷ []
children (Node.unwrap i e) = e ∷ []
children (Node.closure i ps b) = emit b
children (Node.try_expr i e) = e ∷ []
children (Node.ternary i c t e) = c ∷ t ∷ e ∷ []
children (Node.await_expr i e) = e ∷ []
children (Node.yield_expr i e) = emit e
children (Node.comptime i b) = emit b
children (Node.macro_invoke i n e) = emit e
children _ = []

-- The callback on each child in turn, and what it comes to together
unfoldable pub on_each : (Node → List Node) → List Node → List Node
on_each fn [] = []
on_each fn (n ∷ ns) = fn n ++ on_each fn ns

-- `walkSubtree` to a depth: the node, and then the same of each child of `forEachChild`
unfoldable pub walk : ℕ → Node → List Node
unfolding children on_each
walk zero n = []
walk (suc depth) n = n ∷ on_each (walk depth) (children n)

-- `walkSubtree`: no tree is deeper than it has nodes.
unfoldable pub subtree : Node → List Node
unfolding walk below
subtree n = walk (length (listed n)) n
