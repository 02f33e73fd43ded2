-- ===== src/Service/Auth.antt =====
-- internal/service/auth.go
pub mod LoggedOut
pub mod OtpLogin
pub mod Login
pub mod Recovery
pub mod Overtaken
pub mod Register
pub mod Reset
use go_auth_refresh_template.Base.{String, Option, none, some, not, if◌then◌else◌}
use go_auth_refresh_template.Domain
use go_auth_refresh_template.Domain.{Uuid, Config}
use go_auth_refresh_template.Errors.{
  Error, sentinel, one, wrap, errors_is, is_email_already_registered, new_already_exists_error,
  new_unauthenticated_error, user_already_registered, user_not_registered, invalid_credentials,
  invalid_reset_token,
}
use go_auth_refresh_template.World.{Env, Action, pure, raise, ◌>>=◌, ◌>>◌, draw, wrap_error}
use go_auth_refresh_template.Secure.{hash_password, check_password, hash_reset_token}
use go_auth_refresh_template.Repository
use go_auth_refresh_template.Repository.Common.{map_error}
use go_auth_refresh_template.Repository.Transaction.{exec}
use go_auth_refresh_template.Service.Jwt.{generate_access_token}
use go_auth_refresh_template.Service.RefreshToken.{generate_refresh_token}
use go_auth_refresh_template.Service.Otp.{verify_login_code}

abbrev pub already_registered : Error
already_registered =
    new_already_exists_error "user email is already registered"
      (one (sentinel user_already_registered))

abbrev pub register_error : Error → Error
register_error e =
    if errors_is is_email_already_registered e
    then already_registered
    else wrap "saving user to repository" e

abbrev pub unknown_email : Error
unknown_email =
    new_unauthenticated_error "invalid email or password" (one (sentinel user_not_registered))

abbrev pub wrong_password : Error
wrong_password =
    new_unauthenticated_error "invalid email or password" (one (sentinel invalid_credentials))

abbrev pub unknown_otp_email : Error
unknown_otp_email =
    new_unauthenticated_error "invalid email or otp code" (one (sentinel user_not_registered))

abbrev pub bad_reset_token : Error
bad_reset_token =
    new_unauthenticated_error "invalid reset token" (one (sentinel invalid_reset_token))

module _ (env : Env) (config : Config) where
  -- The user's `ID` and `Password` are set before the row is saved.
  unfoldable pub register_user : Domain.User → Action (Unit {0})
  unfolding errors_is
  register_user user = do
    id ← draw env.uuid_new
    hashed_password ← wrap_error "hashing password" (hash_password env user.password)
    map_error register_error
        (Repository.User.save env (record user { id = id; password = hashed_password }))

  -- The access token and the refresh token's id, as text.
  unfoldable pub issue_tokens : Uuid → Action (String × String)
  issue_tokens user_id = do
    access_token ←
        wrap_error "generating access token" (generate_access_token env config.jwt user_id)
    refresh_token ←
        wrap_error "generating refresh token" (generate_refresh_token env config user_id)
    pure (access_token, env.uuid_string refresh_token.id)

  abbrev pub login_as : String → Option Domain.User → Action (String × String)
  login_as password none = raise unknown_email
  login_as password (some existing_user) =
      if not (check_password env existing_user.password password)
      then raise wrong_password
      else issue_tokens existing_user.id

  unfoldable pub login : String → String → Action (String × String)
  unfolding issue_tokens
  login email password = do
    existing_user ← wrap_error "fetching user by email" (Repository.User.get_by_email env email)
    login_as password existing_user

  abbrev pub login_with_otp_as : String → String → Option Domain.User → Action (String × String)
  login_with_otp_as email code none = raise unknown_otp_email
  login_with_otp_as email code (some existing_user) = do
    wrap_error "verifying otp code" (verify_login_code env config code email)
    issue_tokens existing_user.id

  unfoldable pub login_with_otp : String → String → Action (String × String)
  unfolding issue_tokens
  login_with_otp email code = do
    existing_user ← wrap_error "fetching user by email" (Repository.User.get_by_email env email)
    login_with_otp_as email code existing_user

  abbrev pub reset_for : String → Option Domain.ResetToken → Action (Unit {0})
  reset_for hashed_password none = raise bad_reset_token
  reset_for hashed_password (some token) = do
    wrap_error "updating user password"
        (Repository.User.update_password env token.user_id hashed_password)
    wrap_error "revoking user tokens" (Repository.RefreshToken.delete_by_user_id env token.user_id)

  -- The function that `ResetPassword` hands to the unit of work.
  unfoldable pub apply_reset : String → String → Action (Unit {0})
  apply_reset token_hash hashed_password = do
    token ← wrap_error "consuming reset token" (Repository.ResetToken.consume env token_hash)
    reset_for hashed_password token

  unfoldable pub reset_password : String → String → Action (Unit {0})
  reset_password reset_token password = do
    hashed_password ← wrap_error "hashing password" (hash_password env password)
    wrap_error "running reset password transaction" (
        exec env (
          apply_reset (hash_reset_token env reset_token config.reset_token.secret) hashed_password))
