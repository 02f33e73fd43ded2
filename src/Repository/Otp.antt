-- ===== src/Repository/Otp.antt =====
-- internal/repository/otp.go
pub mod LoginCodes
pub mod Laws
use go_auth_refresh_template.Base.{String, Option, none, some, pos, int16}
use go_auth_refresh_template.Domain
use go_auth_refresh_template.Domain.{Uuid, OtpOptions}
use go_auth_refresh_template.Errors.{errors_is}
use go_auth_refresh_template.Database.{OtpRow}
use go_auth_refresh_template.Database.Otps
use go_auth_refresh_template.World.{Env, Action, pure, ◌>>=◌, wrap_error, query}
use go_auth_refresh_template.Repository.Common.{optional}

abbrev pub to_row : Domain.Otp → OtpRow
to_row otp = record {
  id = otp.id;
  identifier = otp.identifier;
  code_hash = otp.code;
  attempts = int16 otp.attempts;
  expires_at = otp.expires_at;
  created_at = otp.created_at;
}

-- What `Consume` returns, which leaves `Attempts` at 0, and what `ConsumeByChallengeID` does.
abbrev pub without_attempts : Option OtpRow → Option Domain.Otp
without_attempts none = none
without_attempts (some otp) = some (record {
  id = otp.id;
  code = otp.code_hash;
  identifier = otp.identifier;
  attempts = pos 0;
  expires_at = otp.expires_at;
  created_at = otp.created_at;
})

abbrev pub with_attempts : Option OtpRow → Option Domain.Otp
with_attempts none = none
with_attempts (some otp) = some (record {
  id = otp.id;
  code = otp.code_hash;
  identifier = otp.identifier;
  attempts = otp.attempts;
  expires_at = otp.expires_at;
  created_at = otp.created_at;
})

module _ (env : Env) (otp_options : OtpOptions) where
  unfoldable pub save : Domain.Otp → Action (Unit {0})
  save otp = wrap_error "saving otp code" (query env (λ _. Otps.save_otp_code (to_row otp)))

  unfoldable pub invalidate_by_identifier : String → Action (Unit {0})
  invalidate_by_identifier identifier =
      wrap_error "invalidating otp codes by identifier"
        (query env (λ _. Otps.invalidate_otp_codes_by_identifier identifier))

  unfoldable pub consume : String → String → Action (Option Domain.Otp)
  unfolding errors_is
  consume email code_hash = do
    otp ←
        optional "fetching otp code" (query env (λ now. Otps.consume_otp_code now code_hash email))
    pure (without_attempts otp)

  unfoldable pub consume_by_challenge_id : Uuid → String → Action (Option Domain.Otp)
  unfolding errors_is
  consume_by_challenge_id challenge_id code_hash = do
    otp ← optional "fetching otp code by challenge id" (
        query env (λ now.
          Otps.consume_otp_code_by_challenge_id now challenge_id code_hash
            (int16 otp_options.max_attempts)))
    pure (with_attempts otp)

  unfoldable pub increase_attempts : Uuid → Action (Unit {0})
  increase_attempts challenge_id = wrap_error "increasing otp attempts" (
      query env
        (λ now. Otps.increase_otp_attempts now challenge_id (int16 otp_options.max_attempts)))
