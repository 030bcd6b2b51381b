-- ===== src/Ast.antt =====
-- src/AST.
pub mod Types
pub mod Patterns
pub mod Nodes
pub mod Listed
pub mod Walk
