-- ===== src/Solve.antt =====
-- The solve tier (crates/themelios-solve/src).
pub mod Contract
pub mod Conclusion
pub mod Model
pub mod Live
pub mod Consequences
pub mod Agent
