-- ===== src/Billing/Metering/Invariant.antt =====
-- What holds of the two tables between two transactions: the counters of a period are the sums
-- over its reservations.
pub mod Sums
pub mod RowUpdates
pub mod Singles
