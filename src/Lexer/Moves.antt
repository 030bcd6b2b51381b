-- ===== src/Lexer/Moves.antt =====
-- What every function of the lexer does to the cursor: it calls `advance` some number of times.
-- `Moves` is that relation, and `Made` says where a token stands between two cursors.
mod Defs
pub mod Blank
pub mod Literals
pub mod Strings
pub mod Next
pub use Defs.*
