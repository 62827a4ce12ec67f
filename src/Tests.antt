-- ===== src/Tests.antt =====
-- Runs of the theorems at concrete inputs, by part.
pub mod Data
pub mod Terms
pub mod Search
pub mod Agents
pub mod Queries
pub mod Engine
pub mod Texts
pub mod Programs
pub mod Graphs
