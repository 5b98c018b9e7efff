-- ===== src/Notifications.antt =====
-- app/modules/notifications: the log of the messages to parents, and how they are sent in chunks.
pub mod Repository
pub mod Commits
mod Dispatch
mod Once
mod Tests
