-- ===== src/Objects/Service/RefreshToken.antt =====
-- `refreshTokenService` of internal/service/refresh_token.go.
use go_auth_refresh_template.Base.{◌+◌, String, none, some, ◌==◌, text_key, if◌then◌else◌}
use go_auth_refresh_template.Domain.{Uuid, RefreshToken, RefreshTokenOptions}
use go_auth_refresh_template.Errors.{wrap}
use go_auth_refresh_template.World.{Env, Action, pure, raise, ◌>>=◌, ◌>>◌, draw, wrap_error}
use go_auth_refresh_template.Service.RefreshToken.{
  uuid_parse_error, malformed_token, token_not_found,
}
use go_auth_refresh_template.Objects.UnitOfWork.{UnitOfWork, Repositories}
use go_auth_refresh_template.Objects.Service.Jwt.{JwtService}

pub record RefreshTokenRepository : Type 0 where
  pub save : RefreshToken → Action (Unit {0})
  pub delete : Uuid → Action (Unit {0})

pub record RefreshTokenService : Type 0 where
  pub generate_refresh_token : Uuid → Action RefreshToken
  pub refresh : String → Action (String × String)
  pub revoke : String → Action (Unit {0})

pub record RefreshTokenServiceStruct : Type 1 where
  pub refresh_token_options : RefreshTokenOptions
  pub unit_of_work : UnitOfWork
  pub refresh_token_store : RefreshTokenRepository
  pub jwt_service : JwtService

module _ (env : Env) (s : RefreshTokenServiceStruct) where
  -- The `domain.RefreshToken{…}` of both methods.
  unfoldable pub new_token : Uuid → Action RefreshToken
  new_token user_id = do
    id ← draw env.uuid_new
    created_at ← draw env.now
    now ← draw env.now
    pure (record {
      id = id;
      user_id = user_id;
      created_at = created_at;
      expires_at = now + s.refresh_token_options.duration;
    })

  unfoldable pub generate_refresh_token : Uuid → Action RefreshToken
  unfolding new_token
  generate_refresh_token user_id = do
    refresh_token ← new_token user_id
    wrap_error "saving refresh token to repository" (s.refresh_token_store.save refresh_token)
    pure refresh_token

  abbrev parse_user_id : String → Action Uuid
  parse_user_id text = elim (env.uuid_parse text) [
    | none ↦ raise (wrap "parsing user id" uuid_parse_error)
    | some id ↦ pure id
  ]

  -- The function that `Refresh` hands to the unit of work, from the new token on.
  unfoldable pub issue : Repositories → Uuid → Action (String × String)
  unfolding new_token
  issue repos user_id = do
    new_token ← new_token user_id
    wrap_error "saving new refresh token to repository"
        (repos.refresh_token_repository.save new_token)
    access_token ←
        wrap_error "generating new access token"
          (s.jwt_service.generate_access_token new_token.user_id)
    pure (access_token, env.uuid_string new_token.id)

  unfoldable pub rotate : Uuid → Repositories → Action (String × String)
  unfolding issue
  rotate token_id repos = do
    user_id ←
        wrap_error "fetching refresh token from repository"
          (repos.refresh_token_repository.consume token_id)
    if user_id == "" then raise token_not_found else (parse_user_id user_id >>= issue repos)

  unfoldable pub refresh : String → Action (String × String)
  unfolding rotate
  refresh token_id_string = elim (env.uuid_parse token_id_string) [
    | none ↦ raise malformed_token
    | some token_id ↦ s.unit_of_work.exec (rotate token_id)
  ]

  unfoldable pub revoke : String → Action (Unit {0})
  revoke token_id_string = elim (env.uuid_parse token_id_string) [
    | none ↦ raise malformed_token
    | some token_id ↦ wrap_error "deleting refresh token" (s.refresh_token_store.delete token_id)
  ]

abbrev pub new_refresh_token_service :
    Env
    → RefreshTokenOptions
    → UnitOfWork
    → RefreshTokenRepository
    → JwtService
    → RefreshTokenService
new_refresh_token_service env refresh_token_options unit_of_work refresh_token_store jwt_service =
    let s : RefreshTokenServiceStruct = record {
      refresh_token_options = refresh_token_options;
      unit_of_work = unit_of_work;
      refresh_token_store = refresh_token_store;
      jwt_service = jwt_service;
    } in
    record {
      generate_refresh_token = generate_refresh_token env s;
      refresh = refresh env s;
      revoke = revoke env s;
    }
