-- ===== src/Objects/Sqlc/RefreshToken.antt =====
-- `SqlcRefreshTokenRepository` of internal/repository/refresh_token.go.
use go_auth_refresh_template.Base.{String, Option, none, some}
use go_auth_refresh_template.Domain.{Uuid, RefreshToken}
use go_auth_refresh_template.Errors.{errors_is}
use go_auth_refresh_template.World.{Env, Action, pure, ◌>>=◌, wrap_error}
use go_auth_refresh_template.Repository.Common.{optional}
use go_auth_refresh_template.Objects.Queries.{Querier}

pub record SqlcRefreshTokenRepository : Type 0 where
  pub querier : Querier

abbrev pub new_sqlc_refresh_token_repository : Querier → SqlcRefreshTokenRepository
new_sqlc_refresh_token_repository querier = record { querier = querier }

module _ (env : Env) (r : SqlcRefreshTokenRepository) where
  unfoldable pub save : RefreshToken → Action (Unit {0})
  save token = wrap_error "saving refresh token" (r.querier.save_refresh_token token)

  unfoldable pub get : Uuid → Action (Option RefreshToken)
  unfolding errors_is
  get token_id = optional "getting refresh token" (r.querier.get_refresh_token_by_id token_id)

  abbrev owner_text : Option RefreshToken → String
  owner_text none = ""
  owner_text (some token) = env.uuid_string token.user_id

  unfoldable pub consume : Uuid → Action String
  unfolding errors_is
  consume token_id = do
    token ← optional "consuming refresh token" (r.querier.consume_refresh_token token_id)
    pure (owner_text token)

  unfoldable pub delete : Uuid → Action (Unit {0})
  delete token_id = wrap_error "deleting refresh token" (r.querier.delete_refresh_token token_id)

  unfoldable pub delete_by_user_id : Uuid → Action (Unit {0})
  delete_by_user_id user_id =
      wrap_error "deleting refresh tokens by user ID"
        (r.querier.delete_refresh_tokens_by_user_id user_id)
