-- ===== src/Reports.antt =====
-- src/reports and src/common/accounting: how transactions are classified, and the three statements
-- that are computed from them.
pub mod Treatment
pub mod Ledger
pub mod Profit
pub mod Cash
pub mod Balance
pub mod Csv
mod Tests
