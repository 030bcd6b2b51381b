-- ===== src/Json/RoundTrip.antt =====
-- What `serialize` writes, `parse` reads.
pub mod Text
pub mod Number
pub mod Plain
pub mod Steps
pub mod Rounds
pub mod Loops
pub mod Value
