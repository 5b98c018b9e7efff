-- ===== src/Imports.antt =====
-- app/modules/imports: files of students and of fee accounts, validated row by row, corrected and
-- committed.
pub mod Values
pub mod Reports
pub mod Matches
pub mod FeeCells
pub mod FeeRows
pub mod FeeFile
pub mod FeeLoop
pub mod Counts
pub mod Checks
pub mod Accepted
pub mod Distinct
pub mod Repository
pub mod Commit
pub mod Ledger
pub mod CommitOutcome
pub mod Committed
pub mod Upload
pub mod Harmless
pub mod Corrections
pub mod Corrected
pub mod Normal
pub mod Example
mod Tests
mod CommitTests
mod CorrectionTests
