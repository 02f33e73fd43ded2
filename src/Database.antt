-- ===== src/Database.antt =====
-- The four tables of internal/infra/database, as lists of rows (sqlc/models.go), and the
-- constraints that schema/001_init.sql puts on them.
pub mod Preserved
pub mod Integrity
pub mod Hashed
pub mod Users
pub mod RefreshTokens
pub mod ResetTokens
pub mod Otps
use go_auth_refresh_template.Base.{ℕ, ℤ, String, Option, List}
use go_auth_refresh_template.Domain.{Uuid, Time, User, RefreshToken}
use go_auth_refresh_template.Errors.{Error, pq, sentinel, no_rows}

-- The rows of `users` and `refresh_tokens` have the fields of the domain models.
pub record PasswordResetToken : Type 0 where
  pub id : Uuid
  pub user_id : Uuid
  pub token_hash : String
  pub expires_at : Time
  pub used_at : Option Time
  pub created_at : Time

pub record OtpRow : Type 0 where
  pub id : Uuid
  pub identifier : String
  pub code_hash : String
  pub attempts : ℤ
  pub expires_at : Time
  pub created_at : Time

pub record Database : Type 0 where
  pub users : List User
  pub refresh_tokens : List RefreshToken
  pub password_reset_tokens : List PasswordResetToken
  pub otp : List OtpRow

-- What a statement answers: a value and the new tables, or a refusal that changes nothing.
pub data Reply (A : Type 0) : Type 0 where
  done : A → Database → Reply A
  refused : Error → Reply A

-- PostgreSQL's error codes for the constraints of the schema.
abbrev pub unique_violation : Error
unique_violation = pq "23505"

abbrev pub foreign_key_violation : Error
foreign_key_violation = pq "23503"

abbrev pub string_data_right_truncation : Error
string_data_right_truncation = pq "22001"

abbrev pub numeric_value_out_of_range : Error
numeric_value_out_of_range = pq "22003"

abbrev pub err_no_rows : Error
err_no_rows = sentinel no_rows
