-- ===== src/Driver.antt =====
-- src/Driver.
pub mod Version
pub mod Format
