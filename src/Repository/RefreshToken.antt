-- ===== src/Repository/RefreshToken.antt =====
-- internal/repository/refresh_token.go
pub mod Laws
use go_auth_refresh_template.Base.{String, Option, none, some}
use go_auth_refresh_template.Domain
use go_auth_refresh_template.Domain.{Uuid}
use go_auth_refresh_template.Errors.{errors_is}
use go_auth_refresh_template.Database.RefreshTokens
use go_auth_refresh_template.World.{Env, Action, pure, ◌>>=◌, wrap_error, query}
use go_auth_refresh_template.Repository.Common.{optional}

module _ (env : Env) where
  unfoldable pub save : Domain.RefreshToken → Action (Unit {0})
  save token =
      wrap_error "saving refresh token" (query env (λ _. RefreshTokens.save_refresh_token token))

  unfoldable pub get : Uuid → Action (Option Domain.RefreshToken)
  unfolding errors_is
  get token_id =
      optional "getting refresh token"
        (query env (λ now. RefreshTokens.get_refresh_token_by_id now token_id))

  -- The owner of the consumed token, as text; "" where no live token has the id.
  abbrev owner_text : Option Domain.RefreshToken → String
  owner_text none = ""
  owner_text (some token) = env.uuid_string token.user_id

  unfoldable pub consume : Uuid → Action String
  unfolding errors_is
  consume token_id = do
    token ←
        optional "consuming refresh token"
          (query env (λ now. RefreshTokens.consume_refresh_token now token_id))
    pure (owner_text token)

  unfoldable pub delete : Uuid → Action (Unit {0})
  delete token_id =
      wrap_error "deleting refresh token"
        (query env (λ _. RefreshTokens.delete_refresh_token token_id))

  unfoldable pub delete_by_user_id : Uuid → Action (Unit {0})
  delete_by_user_id user_id =
      wrap_error "deleting refresh tokens by user ID"
        (query env (λ _. RefreshTokens.delete_refresh_tokens_by_user_id user_id))
