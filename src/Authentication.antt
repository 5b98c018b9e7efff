-- ===== src/Authentication.antt =====
-- The authentication component: the access context of a caller.
pub mod Repository
pub mod Service
pub mod Grants
pub mod Contexts
mod Tests
