-- ===== src/Attendance.antt =====
-- The attendance component: daily sessions of a section and the records of its students.
pub mod Schemas
pub mod Repository
pub mod Responses
pub mod Service
pub mod Routes
pub mod Sessions
pub mod Lifecycle
pub mod Marking
pub mod Opening
pub mod History
pub mod Guards
pub mod Submission
pub mod Duplicates
mod Example
mod Tests
