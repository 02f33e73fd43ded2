-- ===== src/Database/Preserved.antt =====
-- What the statements keep of the tables: the interface between a property of the tables and the
-- operations that are made of statements.
use go_auth_refresh_template.Base.{ℤ, String, Bool, ◌≡◌}
use go_auth_refresh_template.Domain.{Uuid, Time, User, RefreshToken}
use go_auth_refresh_template.Database.{Database, Reply, done, OtpRow}
use go_auth_refresh_template.Database.Users.{save_user, update_user_password}
use go_auth_refresh_template.Database.RefreshTokens.{
  save_refresh_token, consume_refresh_token, delete_refresh_token, delete_refresh_tokens_by_user_id,
}
use go_auth_refresh_template.Database.ResetTokens.{
  save_password_reset_token, consume_password_reset_token,
}
use go_auth_refresh_template.Database.Otps.{
  save_otp_code, invalidate_otp_codes_by_identifier, take_otp, increase_otp_attempts,
}

-- A statement that answers tables with the property.
abbrev pub Answers : {A : Type 0} → (Database → Type 0) → Reply A → Type 0
Answers {A} P r = (a : A) (db : Database) → r ≡ done a db → P db

-- The values that are stored: the ids of refresh tokens and of codes, the passwords of users, and the
-- hashes of codes and of reset tokens.
pub record Stored : Type 1 where
  pub id : Uuid → Type 0
  pub password : String → Type 0
  pub code : String → Type 0
  pub token : String → Type 0

-- Each statement in use keeps `P`, where what is stored satisfies `v`.
pub record Preserved (v : Stored) (P : Database → Type 0) : Type 0 where
  pub save_user :
      (row : User) (db : Database) → v.password row.password → P db → Answers P (save_user row db)
  pub update_user_password :
      (id : Uuid) (password : String) (db : Database)
      → v.password password
      → P db
      → Answers P (update_user_password id password db)
  pub save_refresh_token :
      (row : RefreshToken) (db : Database)
      → v.id row.id
      → P db
      → Answers P (save_refresh_token row db)
  pub consume_refresh_token :
      (now : Time) (id : Uuid) (db : Database) → P db → Answers P (consume_refresh_token now id db)
  pub delete_refresh_token :
      (id : Uuid) (db : Database) → P db → Answers P (delete_refresh_token id db)
  pub delete_refresh_tokens_by_user_id :
      (user_id : Uuid) (db : Database)
      → P db
      → Answers P (delete_refresh_tokens_by_user_id user_id db)
  pub save_password_reset_token :
      (now : Time) (id user_id : Uuid) (hash : String) (expires_at : Time) (db : Database)
      → v.token hash
      → P db
      → Answers P (save_password_reset_token now id user_id hash expires_at db)
  pub consume_password_reset_token :
      (now : Time) (hash : String) (db : Database)
      → P db
      → Answers P (consume_password_reset_token now hash db)
  pub save_otp_code :
      (row : OtpRow) (db : Database)
      → v.id row.id
      → v.code row.code_hash
      → P db
      → Answers P (save_otp_code row db)
  pub invalidate_otp_codes_by_identifier :
      (identifier : String) (db : Database)
      → P db
      → Answers P (invalidate_otp_codes_by_identifier identifier db)
  pub take_otp : (p : OtpRow → Bool) (db : Database) → P db → Answers P (take_otp p db)
  pub increase_otp_attempts :
      (now : Time) (id : Uuid) (max : ℤ) (db : Database)
      → P db
      → Answers P (increase_otp_attempts now id max db)

-- What holds of all tables is kept.
pub Preserved-Unit : (v : Stored) → Preserved v (λ db. Unit {0})
Preserved-Unit v = record {
  save_user = λ row db new h a db' e. tt;
  update_user_password = λ id password db new h a db' e. tt;
  save_refresh_token = λ row db new h a db' e. tt;
  consume_refresh_token = λ now id db h a db' e. tt;
  delete_refresh_token = λ id db h a db' e. tt;
  delete_refresh_tokens_by_user_id = λ user_id db h a db' e. tt;
  save_password_reset_token = λ now id user_id hash expires_at db new h a db' e. tt;
  consume_password_reset_token = λ now hash db h a db' e. tt;
  save_otp_code = λ row db new hash h a db' e. tt;
  invalidate_otp_codes_by_identifier = λ identifier db h a db' e. tt;
  take_otp = λ p db h a db' e. tt;
  increase_otp_attempts = λ now id max db h a db' e. tt;
}
