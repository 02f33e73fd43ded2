-- ===== src/Web/Middleware.antt =====
-- internal/web/middleware/auth.go
pub mod Laws
use go_auth_refresh_template.Base.{◌==◌, text_key, not, if◌then◌else◌}
use go_auth_refresh_template.Domain.{Config}
use go_auth_refresh_template.Errors.{
  Error, sentinel, one, new_permission_denied_error, user_forbidden,
}
use go_auth_refresh_template.World.{
  Env, ok, err, panics, Action, pure, raise, ◌>>=◌, RegisteredClaims,
}
use go_auth_refresh_template.Service
use go_auth_refresh_template.Web.Http.{Request, Handler}
use go_auth_refresh_template.Web.Errors.{handle_error}

abbrev pub forbidden : Error
forbidden =
    new_permission_denied_error "you are not allowed to access this user"
      (one (sentinel user_forbidden))

module _ (env : Env) (config : Config) where
  abbrev pub match_user : Request → RegisteredClaims → Action RegisteredClaims
  match_user r claims = if not (r.path_id == claims.subject) then raise forbidden else pure claims

  -- The subject of a valid token that is the requested user. The value that the middleware adds to
  -- the request's context is read nowhere.
  unfoldable pub authorize : Request → Action RegisteredClaims
  authorize r = do
    claims ← Service.Jwt.validate_access_token env config.jwt r.authorization
    match_user r claims

  -- `Authenticate`: the next handler runs only for such a token.
  unfoldable pub authenticate : Handler → Handler
  unfolding handle_error authorize
  authenticate next r w =
      let (result, w') = authorize r w in
      elim result [
        | ok claims ↦ next r w'
        | err e ↦ (ok (handle_error e), w')
        | panics s ↦ (panics s, w')
      ]
