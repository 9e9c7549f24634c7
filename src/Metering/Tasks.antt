-- ===== src/Metering/Tasks.antt =====
-- treadstone/metering/services/metering_tasks.py: what the leader does at each metering tick.
pub mod Tick
pub mod Warnings
pub mod Grace
pub mod Rollover
pub mod Tests
