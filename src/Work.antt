-- ===== src/Work.antt =====
-- The decisions of Cortex Work.
pub mod OutputPolicy
mod Tests
