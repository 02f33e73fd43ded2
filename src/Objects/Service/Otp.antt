-- ===== src/Objects/Service/Otp.antt =====
-- `otpService` of internal/service/otp.go.
use go_auth_refresh_template.Base.{ℕ, zero, suc, ◌+◌, ℤ, pos, negsuc, String, Option, none, some}
use go_auth_refresh_template.Domain
use go_auth_refresh_template.Domain.{Uuid, User, OtpOptions, ResetTokenOptions}
use go_auth_refresh_template.World.{
  Env, Action, pure, raise, panic, ◌>>=◌, ◌>>◌, draw, try_draw, wrap_error,
}
use go_auth_refresh_template.Secure.{hash_otp, generate_reset_token, hash_reset_token}
use go_auth_refresh_template.Secure.Format.{sprintf_06d}
use go_auth_refresh_template.Service.Otp.{wrong_code, invalid_reset_user}
use go_auth_refresh_template.Objects.UnitOfWork.{UnitOfWork, Repositories}

pub record OtpRepository : Type 0 where
  pub consume : String → String → Action (Option Domain.Otp)
  pub consume_by_challenge_id : Uuid → String → Action (Option Domain.Otp)
  pub increase_attempts : Uuid → Action (Unit {0})

pub record OtpUserFinder : Type 0 where
  pub get_by_email : String → Action (Option User)

pub record ResetTokenSaver : Type 0 where
  pub save : Domain.ResetToken → Action (Unit {0})

pub record EmailSender : Type 0 where
  pub send_code : String → String → Action (Unit {0})

pub record OtpService : Type 0 where
  pub send_code : String → Action Uuid
  pub verify_login_code : String → String → Action (Unit {0})
  pub verify_password_reset_code : String → Uuid → Action String

pub record OtpServiceStruct : Type 1 where
  pub otp_repository : OtpRepository
  pub unit_of_work : UnitOfWork
  pub otp_user_finder : OtpUserFinder
  pub reset_token_saver : ResetTokenSaver
  pub email_sender : EmailSender
  pub otp_options : OtpOptions
  pub reset_token_options : ResetTokenOptions

module _ (env : Env) (s : OtpServiceStruct) where
  -- `rand.Int(rand.Reader, big.NewInt(max))`, which panics unless `max` is positive.
  unfoldable pub random_code : ℤ → Action ℕ
  random_code (pos zero) = panic "crypto/rand: argument to Int is <= 0"
  random_code (pos (suc n)) = try_draw (λ d. env.rand_int d (suc n))
  random_code (negsuc n) = panic "crypto/rand: argument to Int is <= 0"

  -- The `domain.OTP{…}` of `SendCode`.
  unfoldable pub new_otp : Uuid → String → String → Action Domain.Otp
  new_otp challenge_id email hashed_code = do
    now ← draw env.now
    created_at ← draw env.now
    pure (record {
      id = challenge_id;
      code = hashed_code;
      identifier = email;
      attempts = pos 0;
      expires_at = now + s.otp_options.duration;
      created_at = created_at;
    })

  -- The function that `SendCode` hands to the unit of work.
  unfoldable pub replace_code : Domain.Otp → Repositories → Action (Unit {0})
  replace_code otp repos = do
    wrap_error "invalidating previous otp codes"
        (repos.otp_repository.invalidate_by_identifier otp.identifier)
    wrap_error "saving hash code" (repos.otp_repository.save otp)

  -- The rest of `SendCode` after the code is drawn.
  unfoldable pub mail_code : Uuid → String → String → Action Uuid
  unfolding new_otp replace_code
  mail_code challenge_id email formatted_code = do
    wrap_error "sending coding" (s.email_sender.send_code email formatted_code)
    otp ← new_otp challenge_id email (hash_otp env formatted_code s.otp_options.secret)
    wrap_error "replacing otp code" (s.unit_of_work.exec (replace_code otp))
    pure challenge_id

  abbrev pub send_code_if_registered : Uuid → Option User → Action Uuid
  send_code_if_registered challenge_id none = pure challenge_id
  send_code_if_registered challenge_id (some user) = do
    code ← wrap_error "generating otp code" (random_code s.otp_options.max_value)
    mail_code challenge_id user.email (sprintf_06d code)

  unfoldable pub send_code : String → Action Uuid
  unfolding random_code mail_code
  send_code email = do
    challenge_id ← draw env.uuid_new
    user ← wrap_error "fetching user by email" (s.otp_user_finder.get_by_email email)
    send_code_if_registered challenge_id user

  abbrev or_wrong_code : Option Domain.Otp → Action (Unit {0})
  or_wrong_code none = raise wrong_code
  or_wrong_code (some otp) = pure tt

  unfoldable pub verify_login_code : String → String → Action (Unit {0})
  verify_login_code code email = do
    otp ←
        wrap_error "consuming otp code"
          (s.otp_repository.consume email (hash_otp env code s.otp_options.secret))
    or_wrong_code otp

  -- The reset token of `VerifyPasswordResetCode`, of which only the hash is stored.
  unfoldable pub grant_reset_token : User → Action String
  grant_reset_token user = do
    reset_token ← wrap_error "generating reset token" (generate_reset_token env)
    id ← draw env.uuid_new
    now ← draw env.now
    created_at ← draw env.now
    wrap_error "saving reset token" (
        s.reset_token_saver.save (record {
          id = id;
          user_id = user.id;
          token_hash = hash_reset_token env reset_token s.reset_token_options.secret;
          expires_at = now + s.reset_token_options.duration;
          used_at = Domain.zero_time;
          created_at = created_at;
        }))
    pure reset_token

  abbrev grant_if_registered : Option User → Action String
  grant_if_registered none = raise invalid_reset_user
  grant_if_registered (some user) = grant_reset_token user

  -- The rest of `VerifyPasswordResetCode` after the code has been looked for.
  abbrev pub after_consume : Uuid → Option Domain.Otp → Action String
  after_consume challenge_id none = do
    wrap_error "increasing otp attempts" (s.otp_repository.increase_attempts challenge_id)
    raise wrong_code
  after_consume challenge_id (some otp) = do
    user ← wrap_error "fetching user by email" (s.otp_user_finder.get_by_email otp.identifier)
    grant_if_registered user

  unfoldable pub verify_password_reset_code : String → Uuid → Action String
  unfolding grant_reset_token
  verify_password_reset_code code challenge_id = do
    otp ← wrap_error "consuming otp code" (
        s.otp_repository.consume_by_challenge_id challenge_id
          (hash_otp env code s.otp_options.secret))
    after_consume challenge_id otp

abbrev pub new_otp_service :
    Env
    → OtpRepository
    → UnitOfWork
    → OtpUserFinder
    → ResetTokenSaver
    → EmailSender
    → OtpOptions
    → ResetTokenOptions
    → OtpService
new_otp_service env otp_repository unit_of_work otp_user_finder reset_token_saver email_sender
      otp_options reset_token_options =
    let s : OtpServiceStruct = record {
      otp_repository = otp_repository;
      unit_of_work = unit_of_work;
      otp_user_finder = otp_user_finder;
      reset_token_saver = reset_token_saver;
      email_sender = email_sender;
      otp_options = otp_options;
      reset_token_options = reset_token_options;
    } in
    record {
      send_code = send_code env s;
      verify_login_code = verify_login_code env s;
      verify_password_reset_code = verify_password_reset_code env s;
    }
