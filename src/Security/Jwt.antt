-- ===== src/Security/Jwt.antt =====
-- app/core/security/jwt.py: application tokens.
pub mod Claims
pub mod Codec
pub mod RoundTrip
pub mod Sound
mod Tests
