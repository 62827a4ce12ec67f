-- ===== src/Syntax.antt =====
-- The syntax tier (crates/themelios-syntax/src).
pub mod Token
pub mod Scan
pub mod Words
pub mod Punctuation
pub mod Quoted
pub mod Lexer
pub mod Extents
pub mod Munch
pub mod Tiling
pub mod Identifiers
pub mod Comments
pub mod Strings
