-- ===== src/Objects/Sqlc/ResetToken.antt =====
-- `SqlcResetTokenRepository` of internal/repository/reset_token.go.
use go_auth_refresh_template.Base.{String, Option}
use go_auth_refresh_template.Domain.{Uuid, ResetToken}
use go_auth_refresh_template.Errors.{errors_is}
use go_auth_refresh_template.World.{Action, pure, ◌>>=◌, wrap_error}
use go_auth_refresh_template.Repository.Common.{optional}
use go_auth_refresh_template.Repository.ResetToken.{from_rows}
use go_auth_refresh_template.Objects.Queries.{Querier}

pub record SqlcResetTokenRepository : Type 0 where
  pub querier : Querier

abbrev pub new_sqlc_reset_token_repository : Querier → SqlcResetTokenRepository
new_sqlc_reset_token_repository querier = record { querier = querier }

module _ (r : SqlcResetTokenRepository) where
  unfoldable pub save : ResetToken → Action (Unit {0})
  save token =
      wrap_error "saving password reset token" (
        r.querier.save_password_reset_token token.id token.user_id token.token_hash
          token.expires_at)

  unfoldable pub consume : String → Action (Option ResetToken)
  unfolding errors_is
  consume token_hash = do
    token ←
        optional "consuming password reset token"
          (r.querier.consume_password_reset_token token_hash)
    pure (from_rows token)

  unfoldable pub delete_by_user_id : Uuid → Action (Unit {0})
  delete_by_user_id user_id =
      wrap_error "deleting password reset tokens by user ID"
        (r.querier.delete_password_reset_tokens_by_user_id user_id)
