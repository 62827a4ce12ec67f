-- ===== src/Program.antt =====
-- The program tier (crates/themelios-program/src).
pub mod WorkList
pub mod Symbol
pub mod Term
pub mod Unify
