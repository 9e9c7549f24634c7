-- ===== src/Sync.antt =====
-- treadstone/infra/services/k8s_sync.py: the cluster's sandbox resources, mirrored in the database
-- by watch events and by a periodic reconciliation.
pub mod Resource
pub mod Derive
pub mod Rows
pub mod Effect
pub mod Watch
pub mod Reconcile
pub mod Tests
