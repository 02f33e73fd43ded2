-- ===== src/Repository.antt =====
-- internal/repository over the generated queries of internal/infra/database/sqlc, and the
-- transactions of transaction.go.
pub mod Integrity
pub mod Common
pub mod User
pub mod RefreshToken
pub mod ResetToken
pub mod Otp
pub mod Transaction
