-- ===== src/Base.antt =====
-- The base tier (crates/themelios-base/src): spans, sources and the line index.
pub mod Span
pub mod Source
pub mod Line
pub mod Coordinate
