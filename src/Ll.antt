-- ===== src/Ll.antt =====
-- The reader of LLVM assembly text: its lexer, src/ll_lexer.h and src/ll_lexer.c.
pub mod Token
pub mod Keywords
pub mod Cases
pub mod Lexer
pub mod Next
pub mod Location
pub mod Names
mod Tests
