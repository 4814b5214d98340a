-- ===== src/Integrations.antt =====
-- src/integrations: the partners' integrations.
pub mod Delivery
pub mod Entities
pub mod Ledger
pub mod Events
pub mod Tally
pub mod Metrics
pub mod Paystack
pub mod Keys
mod Tests
