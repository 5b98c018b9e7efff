-- ===== src/Fees.antt =====
-- The fees component.
pub mod Schemas
pub mod Receipts
pub mod Repository
pub mod Service
pub mod Ledger
pub mod Payments
pub mod Stages
pub mod Opening
pub mod Setup
pub mod Numbering
pub mod Outcome
pub mod Scope
mod Tests
