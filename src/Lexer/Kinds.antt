-- ===== src/Lexer/Kinds.antt =====
-- include/liva/Lexer/TokenKinds.def and the tables that src/Lexer/Token.cpp builds from it.
mod Names
mod Keywords
unfoldable pub use Names.*
unfoldable pub use Keywords.*
