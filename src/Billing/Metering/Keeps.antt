-- ===== src/Billing/Metering/Keeps.antt =====
-- Each operation of the service keeps the invariant when it returns.
pub mod Settle
pub mod Enlarge
pub mod Supplement
pub mod Release
pub mod Stale
pub mod Expire
pub mod Insert
pub mod Reserve
pub mod Touch
pub mod Histories
