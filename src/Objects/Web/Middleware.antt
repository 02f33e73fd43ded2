-- ===== src/Objects/Web/Middleware.antt =====
-- `authMiddleware` of internal/web/middleware/auth.go.
use go_auth_refresh_template.World.{ok, err, panics, Action, ◌>>=◌, RegisteredClaims}
use go_auth_refresh_template.Base.{◌==◌, text_key, not, if◌then◌else◌}
use go_auth_refresh_template.World.{pure, raise}
use go_auth_refresh_template.Web.Http.{Request, Handler}
use go_auth_refresh_template.Web.Errors.{handle_error}
use go_auth_refresh_template.Web.Middleware.{forbidden}
use go_auth_refresh_template.Objects.Service.Jwt.{JwtService}

pub record AuthMiddleware : Type 0 where
  pub authenticate : Handler → Handler

pub record AuthMiddlewareStruct : Type 0 where
  pub jwt_service : JwtService

module _ (s : AuthMiddlewareStruct) where
  abbrev match_user : Request → RegisteredClaims → Action RegisteredClaims
  match_user r claims = if not (r.path_id == claims.subject) then raise forbidden else pure claims

  -- The claims of a valid token whose subject is the requested user.
  unfoldable pub authorize : Request → Action RegisteredClaims
  authorize r = do claims ← s.jwt_service.validate_access_token r.authorization; match_user r claims

  unfoldable pub authenticate : Handler → Handler
  unfolding handle_error authorize
  authenticate next r w =
      let (result, w') = authorize r w in
      elim result [
        | ok claims ↦ next r w'
        | err e ↦ (ok (handle_error e), w')
        | panics s ↦ (panics s, w')
      ]

abbrev pub new_auth_middleware : JwtService → AuthMiddleware
new_auth_middleware jwt_service = record {
  authenticate = authenticate (record { jwt_service = jwt_service });
}
