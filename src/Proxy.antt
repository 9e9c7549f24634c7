-- ===== src/Proxy.antt =====
-- treadstone/proxy: how requests reach the workload of a sandbox.
pub mod Tests
pub mod Host
pub mod Headers
pub mod Links
pub mod Edge
pub mod Api
