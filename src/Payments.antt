-- ===== src/Payments.antt =====
-- src/payments: plans, subscriptions, payment transactions and the gateway.
pub mod Entities
pub mod Store
pub mod Status
pub mod Exec
pub mod Gateway
pub mod Provision
pub mod Requests
pub mod Worker
pub mod History
pub mod Pricing
pub mod Checkout
pub mod Accounts
mod Tests
