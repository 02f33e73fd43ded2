-- ===== src/Objects/Sqlc.antt =====
-- The repositories of internal/repository, over the `Querier` of the statements.
pub mod User
pub mod RefreshToken
pub mod ResetToken
pub mod Otp
