-- ===== src/Mono.antt =====
-- src/mono: the bank feed.
pub mod Entities
pub mod Identity
pub mod Cooldown
mod Tests
