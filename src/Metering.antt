-- ===== src/Metering.antt =====
-- treadstone/metering: plans, compute credits, compute sessions, storage ledger and quota checks.
pub mod Model
pub mod Helpers
pub mod Plans
pub mod Pools
pub mod Sessions
pub mod Storage
pub mod Quota
pub mod Tasks
pub mod Reconcile
pub mod Tests
