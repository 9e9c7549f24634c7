-- ===== src/Platform.antt =====
-- treadstone/platform: the limits on the whole platform.
pub mod Tests
pub mod Limits
