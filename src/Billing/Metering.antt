-- ===== src/Billing/Metering.antt =====
-- server/billing/metering_service.py: the lifecycle of a usage reservation.
pub mod Checks
pub mod Lifecycle
pub mod Supplement
pub mod Invariant
pub mod Effects
pub mod Reads
pub mod Rebalance
pub mod History
pub mod Replays
pub mod Races
pub mod Limits
pub mod Grants
mod Tests
pub mod Charges
pub mod Settlements
pub mod Enlargements
pub mod Bills
pub mod Keeps
