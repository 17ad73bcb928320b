-- ===== src/Webhooks.antt =====
-- The events that Stripe sends, and the subscriptions that they keep up to date.
pub mod Store
pub mod Work
pub mod Service
pub mod Dispatch
pub mod Events
pub mod Delivery
pub mod Rules
pub mod Ledger
pub mod Evolution
pub mod Upserts
pub mod Units
pub mod Once
pub mod Deliveries
pub mod Repeats
pub mod Histories
pub mod Failures
mod Tests
