-- ===== src/Generation.antt =====
-- Execution plans, of internal/generation.
pub mod Types
pub mod Plan
pub mod Balanced
pub mod Sound
pub mod Pipeline
pub mod Roundtrip
pub mod Agreement
mod Tests
pub mod Split
