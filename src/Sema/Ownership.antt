-- ===== src/Sema/Ownership.antt =====
-- `OwnershipChecker` of src/Sema/OwnershipChecker.cpp.
pub mod Info
pub mod Scopes
pub mod Types
pub mod Steps
pub mod Targets
pub mod Visit
pub mod Live
pub mod Shown
pub mod Keeps
pub mod Check
pub mod Reports
pub mod Passive
pub mod Dyn
pub mod Freed
pub mod Fewer
pub mod GivenBack
pub mod Released
mod Tests
