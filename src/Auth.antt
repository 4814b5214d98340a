-- ===== src/Auth.antt =====
-- src/auth: sessions and their tokens, logging in, passwords, and the second factor.
pub mod Sessions
pub mod Mfa
pub mod Accounts
pub mod Refresh
pub mod Passwords
mod Tests
