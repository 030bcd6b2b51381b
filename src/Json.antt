-- ===== src/Json.antt =====
-- src/Common/JSON.cpp and include/liva/Common/JSON.h.
pub mod Value
pub mod Print
pub mod Scan
pub mod Parse
pub mod Members
pub mod RoundTrip
pub mod Total
mod Tests
