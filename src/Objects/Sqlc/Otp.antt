-- ===== src/Objects/Sqlc/Otp.antt =====
-- `SqlcOtpRepository` of internal/repository/otp.go.
use go_auth_refresh_template.Base.{String, Option, int16}
use go_auth_refresh_template.Domain.{Uuid, Otp, OtpOptions}
use go_auth_refresh_template.Errors.{errors_is}
use go_auth_refresh_template.World.{Action, pure, ◌>>=◌, wrap_error}
use go_auth_refresh_template.Repository.Common.{optional}
use go_auth_refresh_template.Repository.Otp.{to_row, without_attempts, with_attempts}
use go_auth_refresh_template.Objects.Queries.{Querier}

pub record SqlcOtpRepository : Type 0 where
  pub querier : Querier
  pub otp_options : OtpOptions

abbrev pub new_sqlc_otp_repository : Querier → OtpOptions → SqlcOtpRepository
new_sqlc_otp_repository querier otp_options = record {
  querier = querier;
  otp_options = otp_options;
}

module _ (r : SqlcOtpRepository) where
  unfoldable pub save : Otp → Action (Unit {0})
  save otp = wrap_error "saving otp code" (r.querier.save_otp_code (to_row otp))

  unfoldable pub invalidate_by_identifier : String → Action (Unit {0})
  invalidate_by_identifier identifier =
      wrap_error "invalidating otp codes by identifier"
        (r.querier.invalidate_otp_codes_by_identifier identifier)

  unfoldable pub consume : String → String → Action (Option Otp)
  unfolding errors_is
  consume email code_hash = do
    otp ← optional "fetching otp code" (r.querier.consume_otp_code code_hash email)
    pure (without_attempts otp)

  unfoldable pub consume_by_challenge_id : Uuid → String → Action (Option Otp)
  unfolding errors_is
  consume_by_challenge_id challenge_id code_hash = do
    otp ← optional "fetching otp code by challenge id" (
        r.querier.consume_otp_code_by_challenge_id challenge_id code_hash
          (int16 r.otp_options.max_attempts))
    pure (with_attempts otp)

  unfoldable pub increase_attempts : Uuid → Action (Unit {0})
  increase_attempts challenge_id =
      wrap_error "increasing otp attempts"
        (r.querier.increase_otp_attempts challenge_id (int16 r.otp_options.max_attempts))
