-- ===== src/Gateway.antt =====
-- The in-memory guards in front of the API and of the model providers.
pub mod Events
pub mod Circuit
pub mod RateLimit
mod Tests
