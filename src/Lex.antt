-- ===== src/Lex.antt =====
-- lib/Lex: tokens and the lexer.
pub mod Token
pub mod Chars
pub mod Lexer
pub mod Punctuation
