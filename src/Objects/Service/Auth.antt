-- ===== src/Objects/Service/Auth.antt =====
-- `authService` of internal/service/auth.go.
use go_auth_refresh_template.Base.{String, Option, none, some, not, if◌then◌else◌}
use go_auth_refresh_template.Domain
use go_auth_refresh_template.Domain.{Uuid, User, ResetTokenOptions}
use go_auth_refresh_template.Errors.{errors_is}
use go_auth_refresh_template.World.{Env, Action, pure, raise, ◌>>=◌, ◌>>◌, draw, wrap_error}
use go_auth_refresh_template.Secure.{hash_password, check_password, hash_reset_token}
use go_auth_refresh_template.Repository.Common.{map_error}
use go_auth_refresh_template.Service.Auth.{
  register_error, unknown_email, wrong_password, unknown_otp_email, bad_reset_token,
}
use go_auth_refresh_template.Objects.UnitOfWork.{UnitOfWork, Repositories}
use go_auth_refresh_template.Objects.Service.Jwt.{JwtService}
use go_auth_refresh_template.Objects.Service.RefreshToken.{RefreshTokenService}
use go_auth_refresh_template.Objects.Service.Otp.{OtpService}

pub record AuthUserRepository : Type 0 where
  pub save : User → Action (Unit {0})
  pub get_by_email : String → Action (Option User)

-- Of the user that Go's `Login` takes, it reads the email and the password.
pub record AuthService : Type 0 where
  pub register_user : User → Action (Unit {0})
  pub login : String → String → Action (String × String)
  pub login_with_otp : String → String → Action (String × String)
  pub reset_password : String → String → Action (Unit {0})

pub record AuthServiceStruct : Type 1 where
  pub reset_token_options : ResetTokenOptions
  pub unit_of_work : UnitOfWork
  pub user_store : AuthUserRepository
  pub jwt_service : JwtService
  pub refresh_token_service : RefreshTokenService
  pub otp_service : OtpService

module _ (env : Env) (s : AuthServiceStruct) where
  unfoldable pub register_user : User → Action (Unit {0})
  unfolding errors_is
  register_user user = do
    id ← draw env.uuid_new
    hashed_password ← wrap_error "hashing password" (hash_password env user.password)
    map_error register_error
        (s.user_store.save (record user { id = id; password = hashed_password }))

  -- The last steps of both logins.
  unfoldable pub issue_tokens : Uuid → Action (String × String)
  issue_tokens user_id = do
    access_token ←
        wrap_error "generating access token" (s.jwt_service.generate_access_token user_id)
    refresh_token ←
        wrap_error "generating refresh token"
          (s.refresh_token_service.generate_refresh_token user_id)
    pure (access_token, env.uuid_string refresh_token.id)

  abbrev pub login_as : String → Option User → Action (String × String)
  login_as password none = raise unknown_email
  login_as password (some existing_user) =
      if not (check_password env existing_user.password password)
      then raise wrong_password
      else issue_tokens existing_user.id

  unfoldable pub login : String → String → Action (String × String)
  unfolding issue_tokens
  login email password = do
    existing_user ← wrap_error "fetching user by email" (s.user_store.get_by_email email)
    login_as password existing_user

  abbrev pub login_with_otp_as : String → String → Option User → Action (String × String)
  login_with_otp_as email code none = raise unknown_otp_email
  login_with_otp_as email code (some existing_user) = do
    wrap_error "verifying otp code" (s.otp_service.verify_login_code code email)
    issue_tokens existing_user.id

  unfoldable pub login_with_otp : String → String → Action (String × String)
  unfolding issue_tokens
  login_with_otp email code = do
    existing_user ← wrap_error "fetching user by email" (s.user_store.get_by_email email)
    login_with_otp_as email code existing_user

  abbrev pub reset_for : String → Repositories → Option Domain.ResetToken → Action (Unit {0})
  reset_for hashed_password repos none = raise bad_reset_token
  reset_for hashed_password repos (some token) = do
    wrap_error "updating user password"
        (repos.user_repository.update_password token.user_id hashed_password)
    wrap_error "revoking user tokens"
        (repos.refresh_token_repository.delete_by_user_id token.user_id)

  -- The function that `ResetPassword` hands to the unit of work.
  unfoldable pub apply_reset : String → String → Repositories → Action (Unit {0})
  apply_reset token_hash hashed_password repos = do
    token ← wrap_error "consuming reset token" (repos.reset_token_repository.consume token_hash)
    reset_for hashed_password repos token

  unfoldable pub reset_password : String → String → Action (Unit {0})
  unfolding apply_reset
  reset_password reset_token password = do
    hashed_password ← wrap_error "hashing password" (hash_password env password)
    wrap_error "running reset password transaction" (
        s.unit_of_work.exec (
          apply_reset (hash_reset_token env reset_token s.reset_token_options.secret)
            hashed_password))

abbrev pub new_auth_service :
    Env
    → ResetTokenOptions
    → UnitOfWork
    → AuthUserRepository
    → JwtService
    → RefreshTokenService
    → OtpService
    → AuthService
new_auth_service env reset_token_options unit_of_work user_store jwt_service refresh_token_service
      otp_service =
    let s : AuthServiceStruct = record {
      reset_token_options = reset_token_options;
      unit_of_work = unit_of_work;
      user_store = user_store;
      jwt_service = jwt_service;
      refresh_token_service = refresh_token_service;
      otp_service = otp_service;
    } in
    record {
      register_user = register_user env s;
      login = login env s;
      login_with_otp = login_with_otp env s;
      reset_password = reset_password env s;
    }
