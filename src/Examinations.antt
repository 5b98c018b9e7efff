-- ===== src/Examinations.antt =====
-- app/modules/examinations: exams, the sections that they are for, the marks of their students, and the
-- way of an exam from DRAFT to PUBLISHED.
mod Work
mod Texts
mod Targets
mod Repository
mod Marks
mod Service
mod Entry
mod Listing
mod Provision
mod Creation
mod Scores
mod Routes
mod Counting
mod Publication
mod Requests
mod Kept
mod KeptRecords
mod Keeping
mod KeepingMarks
mod KeepingCreation
mod Figures
mod Storing
mod Overlap
mod Example
mod Tests
