-- ===== src/Objects/Queries.antt =====
-- `Querier` of internal/infra/database/sqlc/querier.go, and the statements as its methods. Where
-- `New` is given the connection and `WithTx` a transaction, they run on the tables of the World,
-- which are in a transaction its view of them.
use go_auth_refresh_template.Base.{String, ℤ}
use go_auth_refresh_template.Domain.{Uuid, Time, User, RefreshToken}
use go_auth_refresh_template.Database.{OtpRow, PasswordResetToken}
use go_auth_refresh_template.Database.Users
use go_auth_refresh_template.Database.RefreshTokens
use go_auth_refresh_template.Database.ResetTokens
use go_auth_refresh_template.Database.Otps
use go_auth_refresh_template.World.{Env, Action, query}

pub record Querier : Type 0 where
  pub consume_otp_code : String → String → Action OtpRow
  pub consume_otp_code_by_challenge_id : Uuid → String → ℤ → Action OtpRow
  pub consume_password_reset_token : String → Action PasswordResetToken
  pub consume_refresh_token : Uuid → Action RefreshToken
  pub delete_password_reset_tokens_by_id : Uuid → Action (Unit {0})
  pub delete_password_reset_tokens_by_user_id : Uuid → Action (Unit {0})
  pub delete_refresh_token : Uuid → Action (Unit {0})
  pub delete_refresh_tokens_by_user_id : Uuid → Action (Unit {0})
  pub get_by_email : String → Action User
  pub get_refresh_token_by_id : Uuid → Action RefreshToken
  pub get_user_by_id : Uuid → Action User
  pub get_valid_password_reset_token : String → Action PasswordResetToken
  pub increase_otp_attempts : Uuid → ℤ → Action (Unit {0})
  pub invalidate_otp_codes_by_identifier : String → Action (Unit {0})
  pub save_otp_code : OtpRow → Action (Unit {0})
  pub save_password_reset_token : Uuid → Uuid → String → Time → Action (Unit {0})
  pub save_refresh_token : RefreshToken → Action (Unit {0})
  pub save_user : User → Action (Unit {0})
  pub update_user_password : Uuid → String → Action (Unit {0})

-- `*Queries` as a `Querier`.
abbrev pub queries : Env → Querier
queries env = record {
  consume_otp_code =
      λ code_hash identifier. query env (λ now. Otps.consume_otp_code now code_hash identifier);
  consume_otp_code_by_challenge_id = λ id code_hash max_attempts.
      query env (λ now. Otps.consume_otp_code_by_challenge_id now id code_hash max_attempts);
  consume_password_reset_token =
      λ token_hash. query env (λ now. ResetTokens.consume_password_reset_token now token_hash);
  consume_refresh_token = λ id. query env (λ now. RefreshTokens.consume_refresh_token now id);
  delete_password_reset_tokens_by_id =
      λ id. query env (λ _. ResetTokens.delete_password_reset_tokens_by_id id);
  delete_password_reset_tokens_by_user_id =
      λ user_id. query env (λ _. ResetTokens.delete_password_reset_tokens_by_user_id user_id);
  delete_refresh_token = λ id. query env (λ _. RefreshTokens.delete_refresh_token id);
  delete_refresh_tokens_by_user_id =
      λ user_id. query env (λ _. RefreshTokens.delete_refresh_tokens_by_user_id user_id);
  get_by_email = λ email. query env (λ _. Users.get_by_email email);
  get_refresh_token_by_id = λ id. query env (λ now. RefreshTokens.get_refresh_token_by_id now id);
  get_user_by_id = λ id. query env (λ _. Users.get_user_by_id id);
  get_valid_password_reset_token =
      λ token_hash. query env (λ now. ResetTokens.get_valid_password_reset_token now token_hash);
  increase_otp_attempts =
      λ id max_attempts. query env (λ now. Otps.increase_otp_attempts now id max_attempts);
  invalidate_otp_codes_by_identifier =
      λ identifier. query env (λ _. Otps.invalidate_otp_codes_by_identifier identifier);
  save_otp_code = λ row. query env (λ _. Otps.save_otp_code row);
  save_password_reset_token = λ id user_id token_hash expires_at.
      query env (λ now. ResetTokens.save_password_reset_token now id user_id token_hash expires_at);
  save_refresh_token = λ row. query env (λ _. RefreshTokens.save_refresh_token row);
  save_user = λ row. query env (λ _. Users.save_user row);
  update_user_password = λ id password. query env (λ _. Users.update_user_password id password);
}
