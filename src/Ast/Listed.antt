-- ===== src/Ast/Listed.antt =====
-- The nodes of a tree of include/liva/AST, listed with each node before its parts.
use liva_lang.Base.{List, [], ◌∷◌, ◌++◌}
use liva_lang.Ast.Nodes.{
  Node, Maybe, absent, present, Body, no_body, body, Nodes, nil, cons, Params, no_params, param,
  Arms, no_arms, arm, Members, no_members, class_member,
}

-- What is below a node: each part that is a node, and what is below that.
unfoldable mutual
  pub below : Node → List Node
  below (Node.func_decl i n ts ps b) = listed_defaults ps ++ listed_body b
  below (Node.var_decl i n t m e) = listed_maybe e
  below (Node.struct_decl i n ts fs) = listed_all fs
  below (Node.field_decl i n g s w d l) =
      listed_maybe g ++ (listed_maybe s ++ (listed_maybe w ++ (listed_maybe d ++ listed_maybe l)))
  below (Node.enum_decl i n cs) = listed_all cs
  below (Node.impl_decl i n ts ms) = listed_all ms
  below (Node.protocol_decl i n ts ms) = listed_all ms
  below (Node.class_decl i n ts ms) = listed_members ms
  below (Node.test_decl i n b) = listed_body b
  below (Node.expr_stmt i e) = e ∷ below e
  below (Node.return_stmt i e) = listed_maybe e
  below (Node.if_stmt i c t e) = (c ∷ below c) ++ ((t ∷ below t) ++ listed_maybe e)
  below (Node.while_stmt i c b) = (c ∷ below c) ++ (b ∷ below b)
  below (Node.for_stmt i n e b) = (e ∷ below e) ++ (b ∷ below b)
  below (Node.block_stmt i ss) = listed_all ss
  below (Node.if_let_stmt i n o t e) = (o ∷ below o) ++ ((t ∷ below t) ++ listed_maybe e)
  below (Node.while_let_stmt i n o b) = (o ∷ below o) ++ (b ∷ below b)
  below (Node.binary i op l r) = (l ∷ below l) ++ (r ∷ below r)
  below (Node.unary i op e) = e ∷ below e
  below (Node.call i c xs) = (c ∷ below c) ++ listed_all xs
  below (Node.member i o n) = o ∷ below o
  below (Node.index i b x) = (b ∷ below b) ++ (x ∷ below x)
  below (Node.assign i op t v) = (t ∷ below t) ++ (v ∷ below v)
  below (Node.struct_literal i n ns vs) = listed_all vs
  below (Node.match_expr i s arms) = (s ∷ below s) ++ listed_arms arms
  below (Node.array_literal i es) = listed_all es
  below (Node.tuple_literal i es) = listed_all es
  below (Node.cast i e t o) = e ∷ below e
  below (Node.is_expr i e t) = e ∷ below e
  below (Node.ref_expr i e m) = e ∷ below e
  below (Node.group i e) = e ∷ below e
  below (Node.range i s e inc) = (s ∷ below s) ++ (e ∷ below e)
  below (Node.unwrap i e) = e ∷ below e
  below (Node.closure i ps b) = listed_maybe b
  below (Node.try_expr i e) = e ∷ below e
  below (Node.ternary i c t e) = (c ∷ below c) ++ ((t ∷ below t) ++ (e ∷ below e))
  below (Node.await_expr i e) = e ∷ below e
  below (Node.yield_expr i e) = listed_maybe e
  below (Node.comptime i b) = listed_maybe b
  below (Node.macro_invoke i n e) = listed_maybe e
  below _ = []

  pub listed_maybe : Maybe → List Node
  listed_maybe absent = []
  listed_maybe (present n) = n ∷ below n

  pub listed_body : Body → List Node
  listed_body no_body = []
  listed_body (body i ns) = Node.block_stmt i ns ∷ listed_all ns

  pub listed_all : Nodes → List Node
  listed_all nil = []
  listed_all (cons n ns) = (n ∷ below n) ++ listed_all ns

  pub listed_defaults : Params → List Node
  listed_defaults no_params = []
  listed_defaults (param p d ps) = listed_maybe d ++ listed_defaults ps

  pub listed_arms : Arms → List Node
  listed_arms no_arms = []
  listed_arms (arm p g b arms) = listed_maybe g ++ (listed_maybe b ++ listed_arms arms)

  pub listed_members : Members → List Node
  listed_members no_members = []
  listed_members (class_member f m ms) = listed_maybe f ++ (listed_maybe m ++ listed_members ms)

abbrev pub listed : Node → List Node
listed n = n ∷ below n
