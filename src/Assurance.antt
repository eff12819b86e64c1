-- ===== src/Assurance.antt =====
-- src/sot_graph/assurance: what the receipts rest on.
pub mod State
pub mod Accounting
pub mod TestReport
pub mod SafeCommit
pub mod PreReceipt
pub mod Disposition
pub mod Identity
pub mod Ledger
