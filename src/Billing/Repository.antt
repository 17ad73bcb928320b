-- ===== src/Billing/Repository.antt =====
-- db/billing_repository.py: the statements on usage counters and usage reservations.
pub mod Counters
pub mod Reservations
