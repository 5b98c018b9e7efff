-- ===== src/Security.antt =====
-- The security core: request contexts and application tokens.
pub mod Context
pub mod Text
pub mod Jwt
