-- ===== src/Sema.antt =====
-- src/Sema.
pub mod Scope
pub mod Borrow
pub mod Ownership
pub mod Lifetime
