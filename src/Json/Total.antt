-- ===== src/Json/Total.antt =====
-- The JSON parser answers on every input.
pub mod Scan
pub mod Parse
