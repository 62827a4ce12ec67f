-- ===== src/Solve/Agent.antt =====
-- The agent's parts (crates/themelios-solve/src/agent.rs).
pub mod Ledger
pub mod Questions
pub mod Engine
