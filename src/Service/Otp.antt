-- ===== src/Service/Otp.antt =====
-- internal/service/otp.go, and `SendCode` of internal/infra/email/sender.go.
pub mod Code
pub mod Send
pub mod Attempts
use go_auth_refresh_template.Base.{
  ℕ, zero, suc, ◌+◌, ℤ, pos, negsuc, String, Option, none, some, [], ◌∷◌,
}
use go_auth_refresh_template.Domain
use go_auth_refresh_template.Domain.{Uuid, Config}
use go_auth_refresh_template.Errors.{
  Error, sentinel, one, nil, new_resource_not_found_error, new_permission_denied_error,
  invalid_otp_code,
}
use go_auth_refresh_template.World.{
  Env, Action, pure, raise, panic, ◌>>=◌, ◌>>◌, draw, try_draw, from_outcome, wrap_error,
  SendEmailRequest, next_draw, ok, err,
}
use go_auth_refresh_template.Secure.{hash_otp, generate_reset_token, hash_reset_token}
use go_auth_refresh_template.Secure.Format.{sprintf_06d}
use go_auth_refresh_template.Repository
use go_auth_refresh_template.Repository.Transaction.{exec}

abbrev pub wrong_code : Error
wrong_code =
    new_resource_not_found_error "the inserted code does not match"
      (one (sentinel invalid_otp_code))

abbrev pub invalid_reset_user : Error
invalid_reset_user = new_permission_denied_error "invalid credentials" nil

module _ (env : Env) (config : Config) where
  -- The mail service takes the request, or fails; only a request that it takes is sent.
  abbrev pub deliver : SendEmailRequest → Action (Unit {0})
  deliver request w = elim (env.send_email w.draws config.resend.api_key request) [
    | some e ↦ (err e, next_draw w)
    | none ↦ (ok tt, record w { draws = (next_draw w).draws; outbox = request ∷ w.outbox })
  ]

  -- `ResendClient.SendCode`
  unfoldable pub send_mail : String → String → Action (Unit {0})
  send_mail email code = do
    html ← from_outcome (env.otp_template code)
    deliver
        (record { from = config.resend.email; to = email ∷ []; subject = "OTP code"; html = html })

  -- `rand.Int(rand.Reader, big.NewInt(max))`, which panics unless `max` is positive.
  unfoldable pub random_code : ℤ → Action ℕ
  random_code (pos zero) = panic "crypto/rand: argument to Int is <= 0"
  random_code (pos (suc n)) = try_draw (λ d. env.rand_int d (suc n))
  random_code (negsuc n) = panic "crypto/rand: argument to Int is <= 0"

  -- The function that `SendCode` hands to the unit of work.
  unfoldable pub replace_code : Domain.Otp → Action (Unit {0})
  replace_code otp = do
    wrap_error "invalidating previous otp codes"
        (Repository.Otp.invalidate_by_identifier env config.otp otp.identifier)
    wrap_error "saving hash code" (Repository.Otp.save env config.otp otp)

  -- `domain.OTP{ID: challengeID, Identifier: user.Email, Code: hashedCode, …}`
  unfoldable pub new_otp : Uuid → String → String → Action Domain.Otp
  new_otp challenge_id email hashed_code = do
    now ← draw env.now
    created_at ← draw env.now
    pure (record {
      id = challenge_id;
      code = hashed_code;
      identifier = email;
      attempts = pos 0;
      expires_at = now + config.otp.duration;
      created_at = created_at;
    })

  -- The code's hash replaces those of the address, in a transaction.
  unfoldable pub store_code : Uuid → String → String → Action Uuid
  store_code challenge_id email formatted_code = do
    otp ← new_otp challenge_id email (hash_otp env formatted_code config.otp.secret)
    wrap_error "replacing otp code" (exec env (replace_code otp))
    pure challenge_id

  -- The code is mailed before its hash is stored.
  unfoldable pub mail_code : Uuid → String → String → Action Uuid
  mail_code challenge_id email formatted_code = do
    wrap_error "sending coding" (send_mail email formatted_code)
    store_code challenge_id email formatted_code

  -- `SendCode` for a user that is found.
  unfoldable pub send_code_to : Uuid → String → Action Uuid
  send_code_to challenge_id email = do
    code ← wrap_error "generating otp code" (random_code config.otp.max_value)
    mail_code challenge_id email (sprintf_06d code)

  abbrev pub send_code_if_registered : Uuid → Option Domain.User → Action Uuid
  send_code_if_registered challenge_id none = pure challenge_id
  send_code_if_registered challenge_id (some user) = send_code_to challenge_id user.email

  unfoldable pub send_code : String → Action Uuid
  send_code email = do
    challenge_id ← draw env.uuid_new
    user ← wrap_error "fetching user by email" (Repository.User.get_by_email env email)
    send_code_if_registered challenge_id user

  abbrev pub or_wrong_code : Option Domain.Otp → Action (Unit {0})
  or_wrong_code none = raise wrong_code
  or_wrong_code (some otp) = pure tt

  unfoldable pub verify_login_code : String → String → Action (Unit {0})
  verify_login_code code email = do
    otp ←
        wrap_error "consuming otp code"
          (Repository.Otp.consume env config.otp email (hash_otp env code config.otp.secret))
    or_wrong_code otp

  -- A reset token for the user, of which only the hash is stored.
  unfoldable pub grant_reset_token : Domain.User → Action String
  grant_reset_token user = do
    reset_token ← wrap_error "generating reset token" (generate_reset_token env)
    id ← draw env.uuid_new
    now ← draw env.now
    created_at ← draw env.now
    wrap_error "saving reset token" (
        Repository.ResetToken.save env (record {
          id = id;
          user_id = user.id;
          token_hash = hash_reset_token env reset_token config.reset_token.secret;
          expires_at = now + config.reset_token.duration;
          used_at = Domain.zero_time;
          created_at = created_at;
        }))
    pure reset_token

  abbrev pub grant_if_registered : Option Domain.User → Action String
  grant_if_registered none = raise invalid_reset_user
  grant_if_registered (some user) = grant_reset_token user

  -- The rest of `VerifyPasswordResetCode` after the code has been looked for.
  unfoldable pub after_consume : Uuid → Option Domain.Otp → Action String
  after_consume challenge_id none = do
    wrap_error "increasing otp attempts"
        (Repository.Otp.increase_attempts env config.otp challenge_id)
    raise wrong_code
  after_consume challenge_id (some otp) = do
    user ← wrap_error "fetching user by email" (Repository.User.get_by_email env otp.identifier)
    grant_if_registered user

  unfoldable pub verify_password_reset_code : String → Uuid → Action String
  unfolding after_consume
  verify_password_reset_code code challenge_id = do
    otp ← wrap_error "consuming otp code" (
        Repository.Otp.consume_by_challenge_id env config.otp challenge_id
          (hash_otp env code config.otp.secret))
    after_consume challenge_id otp
