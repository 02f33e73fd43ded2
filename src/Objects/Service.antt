-- ===== src/Objects/Service.antt =====
-- The services of internal/service, over the interfaces that their constructors take.
pub mod Jwt
pub mod User
pub mod RefreshToken
pub mod Otp
pub mod Auth
