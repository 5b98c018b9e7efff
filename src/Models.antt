-- ===== src/Models.antt =====
-- The tables of the database, one record type to a table (app/modules/*/models.py). Primary and
-- foreign keys are UUIDs in the source and are only compared: they are natural numbers here. Dates
-- are day numbers, timestamps are instants counted from a fixed origin, NUMERIC(12, 2) amounts are
-- signed whole hundredths. A column with a CHECK on its values has a data type of those values.
-- Columns that no modelled operation reads or writes are left out.
mod Organisation
mod Academic
mod Students
mod Fees
mod Attendance
mod Imports
mod Examinations
mod Notifications
pub use Organisation.*
pub use Academic.*
pub use Students.*
pub use Fees.*
pub use Attendance.*
pub use Imports.*
pub use Examinations.*
pub use Notifications.*
pub mod Access
