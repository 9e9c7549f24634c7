-- ===== src/Leader.antt =====
-- treadstone/infra/services/leader_election.py: one leader at a time through a Kubernetes Lease.
pub mod Lease
pub mod Api
pub mod Elector
pub mod Race
pub mod Tests
