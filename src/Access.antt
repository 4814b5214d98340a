-- ===== src/Access.antt =====
-- src/common/access-control: what a plan allows, and the guard of the routes that need a plan.
pub mod Entitlements
pub mod Guard
