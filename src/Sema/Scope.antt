-- ===== src/Sema/Scope.antt =====
-- src/Sema/Scope.cpp and include/liva/Sema/Scope.h.
pub mod Defs
pub mod Laws
mod Tests
