-- ===== src/Lexer.antt =====
-- src/Lexer and include/liva/Lexer.
pub mod Kinds
pub mod State
pub mod Blank
pub mod Literals
pub mod Strings
pub mod Next
pub mod Moves
pub mod Progress
pub mod Position
pub mod Tokens
pub mod Stops
pub mod Lookahead
pub mod Values
mod Tests
