-- ===== src/Service.antt =====
-- internal/service: the operations of the program, over the repositories and pkg/secure.
pub mod Integrity
pub mod Jwt
pub mod RefreshToken
pub mod User
pub mod Otp
pub mod Auth
