-- ===== src/Ast/Types.antt =====
-- src/AST/Type.cpp and include/liva/AST/Type.h: `TypeRepr` and its subclasses, `toString`, the
-- tests on kinds, and `cloneTypeRepr`. A subclass is a constructor, and children are never null.
pub mod Repr
pub mod Clone
pub mod Kinds
mod Tests
