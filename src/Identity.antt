-- ===== src/Identity.antt =====
-- treadstone/identity: users, their API keys, and the ways to sign in.
pub mod Model
pub mod Tests
pub mod Users
pub mod Keys
pub mod Cli
pub mod Oauth
