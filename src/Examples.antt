-- ===== src/Examples.antt =====
-- The theorems at concrete inputs.
pub mod Runtime
pub mod Receipts
pub mod Claims
pub mod Leases
pub mod Reviews
pub mod Tasks
pub mod Starts
