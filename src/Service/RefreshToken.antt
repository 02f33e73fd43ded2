-- ===== src/Service/RefreshToken.antt =====
-- internal/service/refresh_token.go
pub mod Serves
pub mod Overtaken
pub mod Laws
pub mod Rotation
use go_auth_refresh_template.Base.{◌+◌, String, none, some, ◌==◌, text_key, if◌then◌else◌}
use go_auth_refresh_template.Domain
use go_auth_refresh_template.Domain.{Uuid, Config}
use go_auth_refresh_template.Errors.{
  Error, sentinel, one, new_unauthenticated_error, invalid_refresh_token,
  refresh_token_not_found_or_expired, wrap, external,
}
use go_auth_refresh_template.World.{Env, Action, pure, raise, ◌>>=◌, ◌>>◌, draw, wrap_error}
use go_auth_refresh_template.Repository
use go_auth_refresh_template.Repository.Transaction.{exec}
use go_auth_refresh_template.Service.Jwt.{generate_access_token}

-- The error of `uuid.Parse`, which only the context is read of.
abbrev pub uuid_parse_error : Error
uuid_parse_error = external "uuid: invalid"

abbrev pub malformed_token : Error
malformed_token =
    new_unauthenticated_error "invalid refresh token" (one (sentinel invalid_refresh_token))

abbrev pub token_not_found : Error
token_not_found =
    new_unauthenticated_error "token not found or expired"
      (one (sentinel refresh_token_not_found_or_expired))

module _ (env : Env) (config : Config) where
  -- `domain.RefreshToken{ID: uuid.New(), UserID: …, CreatedAt: …, ExpiresAt: …}`
  unfoldable pub new_token : Uuid → Action Domain.RefreshToken
  new_token user_id = do
    id ← draw env.uuid_new
    created_at ← draw env.now
    now ← draw env.now
    pure (record {
      id = id;
      user_id = user_id;
      created_at = created_at;
      expires_at = now + config.refresh_token.duration;
    })

  unfoldable pub generate_refresh_token : Uuid → Action Domain.RefreshToken
  unfolding new_token
  generate_refresh_token user_id = do
    token ← new_token user_id
    wrap_error "saving refresh token to repository" (Repository.RefreshToken.save env token)
    pure token

  -- `uuid.Parse(userID)` in the transaction.
  abbrev pub parse_user_id : String → Action Uuid
  parse_user_id text = elim (env.uuid_parse text) [
    | none ↦ raise (wrap "parsing user id" uuid_parse_error)
    | some id ↦ pure id
  ]

  -- The new refresh token of the user and an access token, made in the transaction.
  unfoldable pub issue : Uuid → Action (String × String)
  unfolding new_token
  issue user_id = do
    token ← new_token user_id
    wrap_error "saving new refresh token to repository" (Repository.RefreshToken.save env token)
    access ←
        wrap_error "generating new access token"
          (generate_access_token env config.jwt token.user_id)
    pure (access, env.uuid_string token.id)

  -- The rest of the transaction, by the owner's id as text.
  unfoldable pub rotate_for : String → Action (String × String)
  rotate_for user_id =
      if user_id == "" then raise token_not_found else (parse_user_id user_id >>= issue)

  -- The function that `Refresh` hands to the unit of work.
  unfoldable pub rotate : Uuid → Action (String × String)
  rotate token_id = do
    user_id ←
        wrap_error "fetching refresh token from repository"
          (Repository.RefreshToken.consume env token_id)
    rotate_for user_id

  unfoldable pub refresh : String → Action (String × String)
  refresh token_id_string = elim (env.uuid_parse token_id_string) [
    | none ↦ raise malformed_token
    | some token_id ↦ exec env (rotate token_id)
  ]

  unfoldable pub revoke : String → Action (Unit {0})
  revoke token_id_string = elim (env.uuid_parse token_id_string) [
    | none ↦ raise malformed_token
    | some token_id ↦
        wrap_error "deleting refresh token" (Repository.RefreshToken.delete env token_id)
  ]
