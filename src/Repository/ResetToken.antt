-- ===== src/Repository/ResetToken.antt =====
-- internal/repository/reset_token.go
pub mod Laws
use go_auth_refresh_template.Base.{String, Option, none, some}
use go_auth_refresh_template.Domain
use go_auth_refresh_template.Domain.{Uuid, Time, zero_time}
use go_auth_refresh_template.Errors.{errors_is}
use go_auth_refresh_template.Database.{PasswordResetToken}
use go_auth_refresh_template.Database.ResetTokens
use go_auth_refresh_template.World.{Env, Action, pure, ◌>>=◌, wrap_error, query}
use go_auth_refresh_template.Repository.Common.{optional}

-- The `Time` of a `sql.NullTime`.
abbrev pub null_time : Option Time → Time
null_time none = zero_time
null_time (some t) = t

abbrev pub from_row : PasswordResetToken → Domain.ResetToken
from_row token = record {
  id = token.id;
  user_id = token.user_id;
  token_hash = token.token_hash;
  expires_at = token.expires_at;
  used_at = null_time token.used_at;
  created_at = token.created_at;
}

abbrev pub from_rows : Option PasswordResetToken → Option Domain.ResetToken
from_rows none = none
from_rows (some token) = some (from_row token)

module _ (env : Env) where
  unfoldable pub save : Domain.ResetToken → Action (Unit {0})
  save token = wrap_error "saving password reset token" (
      query env (λ now.
        ResetTokens.save_password_reset_token now token.id token.user_id token.token_hash
          token.expires_at))

  unfoldable pub consume : String → Action (Option Domain.ResetToken)
  unfolding errors_is
  consume token_hash = do
    token ←
        optional "consuming password reset token"
          (query env (λ now. ResetTokens.consume_password_reset_token now token_hash))
    pure (from_rows token)

  unfoldable pub delete_by_user_id : Uuid → Action (Unit {0})
  delete_by_user_id user_id =
      wrap_error "deleting password reset tokens by user ID"
        (query env (λ _. ResetTokens.delete_password_reset_tokens_by_user_id user_id))
