-- ===== src/Auth.antt =====
-- Signing in (apps/api/src/auth).
pub mod Throttle
pub mod Hashes
pub mod Users
pub mod SignIn
