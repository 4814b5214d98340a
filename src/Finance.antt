-- ===== src/Finance.antt =====
-- src/finance: the records of transactions.
pub mod Entities
pub mod Checks
pub mod Results
pub mod Categorization
mod Tests
