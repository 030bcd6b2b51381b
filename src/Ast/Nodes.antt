-- ===== src/Ast/Nodes.antt =====
-- The syntax tree of include/liva/AST: a constructor for each `ASTNode::NodeKind`, with the parts
-- that the analyses read. A pointer that may be null is a `Maybe`.
use liva_lang.Base.{Bool, List, Option, Bytes}
use liva_lang.Base.Decimal.{ℤ}
use liva_lang.Ast.Patterns.{Pattern}
use liva_lang.Ast.Types.Repr.{TypeRepr}
use liva_lang.Lexer.State.{SourceLocation}

-- `getStartLoc` of a node, and `getResolvedType` of an expression.
pub record Info : Type 0 where
  pub start : SourceLocation
  pub resolved : Option TypeRepr

pub data BinaryOp : Type 0 where
  add sub mul div mod_op eq not_eq less less_eq greater greater_eq and or : BinaryOp
  bit_and bit_or bit_xor shl shr nil_coalesce : BinaryOp

pub data UnaryOp : Type 0 where
  negate not bit_not : UnaryOp

pub data AssignOp : Type 0 where
  assign add_assign sub_assign mul_assign div_assign mod_assign : AssignOp

-- `ParamDecl`, but for its default value
pub record Param : Type 0 where
  pub name : Bytes
  pub type : Option TypeRepr
  pub is_ref : Bool
  pub is_mut_ref : Bool
  pub is_self : Bool
  pub is_variadic : Bool
  pub location : SourceLocation

-- `ClosureExpr::Param`
pub record ClosureParam : Type 0 where
  pub name : Bytes
  pub type : Option TypeRepr

mutual
  pub data Node : Type 0 where
    -- Declarations
    func_decl : Info → Bytes → List Bytes → Params → Body → Node
    var_decl : Info → Bytes → Option TypeRepr → Bool → Maybe → Node
    struct_decl : Info → Bytes → List Bytes → Nodes → Node
    field_decl : Info → Bytes → Maybe → Maybe → Maybe → Maybe → Maybe → Node
    enum_decl : Info → Bytes → Nodes → Node
    enum_case_decl : Info → Bytes → Node
    impl_decl : Info → Bytes → List Bytes → Nodes → Node
    protocol_decl : Info → Bytes → List Bytes → Nodes → Node
    import_decl : Info → List Bytes → Node
    type_alias_decl : Info → Bytes → Node
    macro_decl : Info → Bytes → Node
    class_decl : Info → Bytes → List Bytes → Members → Node
    test_decl : Info → Bytes → Body → Node
    -- Statements
    expr_stmt : Info → Node → Node
    return_stmt : Info → Maybe → Node
    if_stmt : Info → Node → Node → Maybe → Node
    while_stmt : Info → Node → Node → Node
    for_stmt : Info → Bytes → Node → Node → Node
    block_stmt : Info → Nodes → Node
    break_stmt : Info → Node
    continue_stmt : Info → Node
    if_let_stmt : Info → Bytes → Node → Node → Maybe → Node
    while_let_stmt : Info → Bytes → Node → Node → Node
    -- Expressions
    integer_literal : Info → ℤ → Node
    float_literal : Info → Node
    bool_literal : Info → Bool → Node
    string_literal : Info → Bytes → Node
    nil_literal : Info → Node
    identifier : Info → Bytes → Node
    binary : Info → BinaryOp → Node → Node → Node
    unary : Info → UnaryOp → Node → Node
    call : Info → Node → Nodes → Node
    member : Info → Node → Bytes → Node
    index : Info → Node → Node → Node
    assign : Info → AssignOp → Node → Node → Node
    struct_literal : Info → Bytes → List Bytes → Nodes → Node
    match_expr : Info → Node → Arms → Node
    array_literal : Info → Nodes → Node
    tuple_literal : Info → Nodes → Node
    cast : Info → Node → TypeRepr → Bool → Node
    is_expr : Info → Node → TypeRepr → Node
    ref_expr : Info → Node → Bool → Node
    group : Info → Node → Node
    range : Info → Node → Node → Bool → Node
    unwrap : Info → Node → Node
    closure : Info → List ClosureParam → Maybe → Node
    try_expr : Info → Node → Node
    ternary : Info → Node → Node → Node → Node
    await_expr : Info → Node → Node
    yield_expr : Info → Maybe → Node
    comptime : Info → Maybe → Node
    macro_invoke : Info → Bytes → Maybe → Node

  pub data Maybe : Type 0 where
    absent : Maybe
    present : Node → Maybe

  -- The block of a function or a test
  pub data Body : Type 0 where
    no_body : Body
    body : Info → Nodes → Body

  pub data Nodes : Type 0 where
    nil : Nodes
    cons : Node → Nodes → Nodes

  -- Parameters with their default values
  pub data Params : Type 0 where
    no_params : Params
    param : Param → Maybe → Params → Params

  -- `MatchArm`: pattern, guard and body
  pub data Arms : Type 0 where
    no_arms : Arms
    arm : Option Pattern → Maybe → Maybe → Arms → Arms

  -- `ClassMember`: field and method
  pub data Members : Type 0 where
    no_members : Members
    class_member : Maybe → Maybe → Members → Members

-- The part that every node has.
unfoldable pub info_of : Node → Info
info_of (Node.func_decl i _ _ _ _) = i
info_of (Node.var_decl i _ _ _ _) = i
info_of (Node.struct_decl i _ _ _) = i
info_of (Node.field_decl i _ _ _ _ _ _) = i
info_of (Node.enum_decl i _ _) = i
info_of (Node.enum_case_decl i _) = i
info_of (Node.impl_decl i _ _ _) = i
info_of (Node.protocol_decl i _ _ _) = i
info_of (Node.import_decl i _) = i
info_of (Node.type_alias_decl i _) = i
info_of (Node.macro_decl i _) = i
info_of (Node.class_decl i _ _ _) = i
info_of (Node.test_decl i _ _) = i
info_of (Node.expr_stmt i _) = i
info_of (Node.return_stmt i _) = i
info_of (Node.if_stmt i _ _ _) = i
info_of (Node.while_stmt i _ _) = i
info_of (Node.for_stmt i _ _ _) = i
info_of (Node.block_stmt i _) = i
info_of (Node.break_stmt i) = i
info_of (Node.continue_stmt i) = i
info_of (Node.if_let_stmt i _ _ _ _) = i
info_of (Node.while_let_stmt i _ _ _) = i
info_of (Node.integer_literal i _) = i
info_of (Node.float_literal i) = i
info_of (Node.bool_literal i _) = i
info_of (Node.string_literal i _) = i
info_of (Node.nil_literal i) = i
info_of (Node.identifier i _) = i
info_of (Node.binary i _ _ _) = i
info_of (Node.unary i _ _) = i
info_of (Node.call i _ _) = i
info_of (Node.member i _ _) = i
info_of (Node.index i _ _) = i
info_of (Node.assign i _ _ _) = i
info_of (Node.struct_literal i _ _ _) = i
info_of (Node.match_expr i _ _) = i
info_of (Node.array_literal i _) = i
info_of (Node.tuple_literal i _) = i
info_of (Node.cast i _ _ _) = i
info_of (Node.is_expr i _ _) = i
info_of (Node.ref_expr i _ _) = i
info_of (Node.group i _) = i
info_of (Node.range i _ _ _) = i
info_of (Node.unwrap i _) = i
info_of (Node.closure i _ _) = i
info_of (Node.try_expr i _) = i
info_of (Node.ternary i _ _ _) = i
info_of (Node.await_expr i _) = i
info_of (Node.yield_expr i _) = i
info_of (Node.comptime i _) = i
info_of (Node.macro_invoke i _ _) = i
