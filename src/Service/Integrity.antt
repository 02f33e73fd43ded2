-- ===== src/Service/Integrity.antt =====
-- What every service method keeps of the tables, whatever it ends with. Here: those of
-- internal/service/auth.go.
mod Tokens
mod Codes
pub use Tokens.{refresh-Keeps, revoke-Keeps}
pub use Codes.{send_code-Keeps, verify_password_reset_code-Keeps}
use go_auth_refresh_template.Service.Integrity.Tokens.{hashed->>=, issue_tokens-Keeps}
use go_auth_refresh_template.Service.Integrity.Codes.{verify_login_code-Keeps}
use go_auth_refresh_template.Base.{
  ◌≡◌, ◌∙◌, ℕ, ◌+◌, refl, ◌==◌, text_key, zero, suc, ℤ, pos, negsuc, String, Option, none, some,
  inl, inr, arith, Option-cases,
}
use go_auth_refresh_template.Domain
use go_auth_refresh_template.Domain.{Uuid, Config, JwtOptions}
use go_auth_refresh_template.World.{
  draw, Env, Action, pure, ◌>>=◌, ◌>>◌, raise, wrap_error, SendEmailRequest,
}
use go_auth_refresh_template.World.Invariants.{
  Keeps, Since, still, keeping, Keeps-raise, Keeps-pure, Keeps-draw, Keeps-if, Keeps->>=,
  Keeps-wrap_error, Keeps-maybe,
}
use go_auth_refresh_template.Secure.{
  hash_otp, hash_password, hash_reset_token, generate_reset_token,
}
use go_auth_refresh_template.Repository.Integrity.{
  IsNew, stored, IsPasswordHash, Keeps-map_error, save_user-Keeps, get_by_email-Keeps,
  update_password-Keeps, save_refresh-Keeps, consume_refresh-Keeps, delete_refresh-Keeps,
  delete_by_user_id-Keeps, save_reset-Keeps, consume_reset-Keeps, save_otp-Keeps,
  invalidate_by_identifier-Keeps, consume_otp-Keeps, consume_by_challenge_id-Keeps,
  increase_attempts-Keeps,
}
use go_auth_refresh_template.Repository.Transaction.Integrity.{Keeps-exec}
use go_auth_refresh_template.Repository
use go_auth_refresh_template.Repository.Transaction.{exec}
use go_auth_refresh_template.Repository.Common.{map_error}
use go_auth_refresh_template.Database.{Database}
use go_auth_refresh_template.Database.Preserved.{Preserved}
use go_auth_refresh_template.Service.Jwt.{generate_access_token}
use go_auth_refresh_template.Service.RefreshToken.{
  new_token, generate_refresh_token, issue, rotate_for, rotate, refresh, revoke, malformed_token,
  parse_user_id,
}
use go_auth_refresh_template.Service.Otp.{
  deliver, send_code_if_registered, or_wrong_code, grant_if_registered, send_mail, random_code,
  replace_code, new_otp, store_code, mail_code, send_code_to, send_code, verify_login_code,
  grant_reset_token, after_consume, verify_password_reset_code,
}
use go_auth_refresh_template.Service.Auth.{
  register_error, register_user, login_as, login_with_otp_as, reset_for, issue_tokens, login,
  login_with_otp, apply_reset, reset_password,
}

module _ (env : Env) (config : Config) {start : ℕ} {P : Database → Type 0}
    (s : Preserved (stored env config start) P) where
  pub register_user-Keeps :
      (user : Domain.User) → Keeps (Since start P) (register_user env config user)
  unfolding register_user
  register_user-Keeps user = Keeps->>= (draw env.uuid_new) _ (Keeps-draw env.uuid_new) (λ id.
      hashed->>= env "hashing password" user.password
        (λ hashed_password.
          map_error register_error
            (Repository.User.save env (record user { id = id; password = hashed_password })))
        (λ hash made. Keeps-map_error _ _ (save_user-Keeps env s _ made)))

  login_as-Keeps :
      (password : String) (user : Option Domain.User)
      → Keeps (Since start P) (login_as env config password user)
  login_as-Keeps password none = Keeps-raise _
  login_as-Keeps password (some user) =
      Keeps-if _ _ _ (Keeps-raise _) (issue_tokens-Keeps env config s user.id)

  pub login-Keeps :
      (email password : String) → Keeps (Since start P) (login env config email password)
  unfolding login
  login-Keeps email password = search (keeping, get_by_email-Keeps, login_as-Keeps) depth 12

  login_with_otp_as-Keeps :
      (email code : String) (user : Option Domain.User)
      → Keeps (Since start P) (login_with_otp_as env config email code user)
  login_with_otp_as-Keeps email code none = Keeps-raise _
  login_with_otp_as-Keeps email code (some user) =
      search (keeping, issue_tokens-Keeps, verify_login_code-Keeps) depth 12

  pub login_with_otp-Keeps :
      (email code : String) → Keeps (Since start P) (login_with_otp env config email code)
  unfolding login_with_otp
  login_with_otp-Keeps email code =
      search (keeping, get_by_email-Keeps, login_with_otp_as-Keeps) depth 12

  reset_for-Keeps :
      (hashed : String) (token : Option Domain.ResetToken)
      → IsPasswordHash env hashed
      → Keeps (Since start P) (reset_for env config hashed token)
  reset_for-Keeps hashed none is = Keeps-raise _
  reset_for-Keeps hashed (some token) is =
      search (keeping, update_password-Keeps, delete_by_user_id-Keeps) depth 12

  apply_reset-Keeps :
      (hash hashed : String)
      → IsPasswordHash env hashed
      → Keeps (Since start P) (apply_reset env config hash hashed)
  unfolding apply_reset
  apply_reset-Keeps hash hashed is = search (keeping, consume_reset-Keeps, reset_for-Keeps) depth 12

  pub reset_password-Keeps :
      (token password : String) → Keeps (Since start P) (reset_password env config token password)
  unfolding reset_password
  reset_password-Keeps token password =
      hashed->>= env "hashing password" password
        (λ hashed_password. wrap_error "running reset password transaction" (
          exec env (
            apply_reset env config (hash_reset_token env token config.reset_token.secret)
              hashed_password)))
        (λ hash made. search (keeping, Keeps-exec, apply_reset-Keeps) depth 12)
