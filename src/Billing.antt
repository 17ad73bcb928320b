-- ===== src/Billing.antt =====
-- The billing services under server/billing and their tables in db/billing_repository.py.
pub mod Errors
pub mod Quantities
pub mod Store
pub mod Session
pub mod Repository
pub mod Metering
pub mod Cleanup
