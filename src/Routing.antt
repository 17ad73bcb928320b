-- ===== src/Routing.antt =====
-- The choice of a tier and of what follows a failed attempt.
pub mod Types
pub mod Models
pub mod Registry
pub mod Selector
pub mod Validator
pub mod Router
pub mod Invocation
pub mod Smart
pub mod Fallback
pub mod TierDecider
pub mod Samples
mod ModelTests
mod Tests
