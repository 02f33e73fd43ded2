-- ===== src/Objects/Dependencies.antt =====
-- `setupDependencies` of internal/app/app.go, and the routes of internal/web/routes/routes.go over it.
use go_auth_refresh_template.Base.{String, List, [], ◌∷◌}
use go_auth_refresh_template.Domain.{Config}
use go_auth_refresh_template.World.{Env, Outcome}
use go_auth_refresh_template.Web.Payload.{Codecs}
use go_auth_refresh_template.Web.Server.{Route, exact, subtree, one_segment, get, post}
use go_auth_refresh_template.Web.Handler.{redirect_swagger, swagger_ui, swagger_spec}
use go_auth_refresh_template.Objects.Queries.{Querier}
use go_auth_refresh_template.Objects.Sqlc
use go_auth_refresh_template.Objects.Sqlc.User.{new_sqlc_user_repository}
use go_auth_refresh_template.Objects.Sqlc.RefreshToken.{new_sqlc_refresh_token_repository}
use go_auth_refresh_template.Objects.Sqlc.ResetToken.{new_sqlc_reset_token_repository}
use go_auth_refresh_template.Objects.Sqlc.Otp.{new_sqlc_otp_repository}
use go_auth_refresh_template.Objects.UnitOfWork.{new_unit_of_work}
use go_auth_refresh_template.Objects.Email
use go_auth_refresh_template.Objects.Email.{new_resend_client}
use go_auth_refresh_template.Objects.Service.User.{new_user_service}
use go_auth_refresh_template.Objects.Service.Jwt.{new_jwt_service}
use go_auth_refresh_template.Objects.Service.RefreshToken.{new_refresh_token_service}
use go_auth_refresh_template.Objects.Service.Otp.{new_otp_service}
use go_auth_refresh_template.Objects.Service.Auth.{new_auth_service}
use go_auth_refresh_template.Objects.Web
use go_auth_refresh_template.Objects.Web.Cookie.{new_cookie_manager}
use go_auth_refresh_template.Objects.Web.Middleware.{AuthMiddleware, new_auth_middleware}
use go_auth_refresh_template.Objects.Web.Handler.{
  AuthHandler, UserHandler, new_auth_handler, new_user_handler,
}

pub record Dependencies : Type 0 where
  pub auth_handler : AuthHandler
  pub user_handler : UserHandler
  pub auth_middleware : AuthMiddleware

-- Where a constructor takes an interface, the struct is given as the record of its methods.
unfoldable pub setup_dependencies : Env → Querier → Config → Dependencies
setup_dependencies env queries config_options =
    let resend_client = new_resend_client config_options.resend in
    let user_repository = new_sqlc_user_repository queries in
    let reset_token_repository = new_sqlc_reset_token_repository queries in
    let otp_repository = new_sqlc_otp_repository queries config_options.otp in
    let refresh_token_repository = new_sqlc_refresh_token_repository queries in
    let unit_of_work = new_unit_of_work env queries config_options.otp in
    let user_service =
      new_user_service env (record { get_by_id = Sqlc.User.get_by_id user_repository }) in
    let jwt_service = new_jwt_service env config_options.jwt in
    let refresh_token_service =
      new_refresh_token_service env config_options.refresh_token unit_of_work
        (record {
          save = Sqlc.RefreshToken.save env refresh_token_repository;
          delete = Sqlc.RefreshToken.delete env refresh_token_repository;
        })
        jwt_service in
    let otp_service =
      new_otp_service env
        (record {
          consume = Sqlc.Otp.consume otp_repository;
          consume_by_challenge_id = Sqlc.Otp.consume_by_challenge_id otp_repository;
          increase_attempts = Sqlc.Otp.increase_attempts otp_repository;
        })
        unit_of_work (record { get_by_email = Sqlc.User.get_by_email user_repository })
        (record { save = Sqlc.ResetToken.save reset_token_repository })
        (record { send_code = Email.send_code env resend_client }) config_options.otp
        config_options.reset_token in
    let auth_service =
      new_auth_service env config_options.reset_token unit_of_work
        (record {
          save = Sqlc.User.save user_repository;
          get_by_email = Sqlc.User.get_by_email user_repository;
        })
        jwt_service refresh_token_service otp_service in
    let cookie_manager =
      new_cookie_manager config_options.environment config_options.refresh_token in
    record {
      auth_middleware = new_auth_middleware jwt_service;
      auth_handler = new_auth_handler auth_service refresh_token_service otp_service cookie_manager;
      user_handler = new_user_handler user_service;
    }

-- `SetupRoutes`
module _ (codecs : Codecs) (template : String → Outcome String) (spec : String) where
  unfoldable pub setup_routes : Dependencies → List Route
  unfolding get post
  setup_routes d =
      get (exact "/swagger") redirect_swagger []
      ∷ get (subtree "/swagger/") (swagger_ui template) []
      ∷ get (exact "/swagger/openapi.yaml") (swagger_spec spec) []
      ∷ post (exact "/auth/register") (Web.Handler.register_user codecs d.auth_handler) []
      ∷ post (exact "/auth/login") (Web.Handler.login codecs d.auth_handler) []
      ∷ post (exact "/auth/otp/send") (Web.Handler.send_otp codecs d.auth_handler) []
      ∷ post (exact "/auth/login/otp") (Web.Handler.login_with_otp codecs d.auth_handler) []
      ∷ post (exact "/auth/logout") (Web.Handler.logout codecs d.auth_handler) []
      ∷ post (exact "/auth/password/verify")
          (Web.Handler.verify_password_reset_code codecs d.auth_handler) []
      ∷ post (exact "/auth/password/reset") (Web.Handler.reset_password codecs d.auth_handler) []
      ∷ get (one_segment "/user/") (Web.Handler.get_user_profile d.user_handler)
          (d.auth_middleware.authenticate ∷ [])
      ∷ post (exact "/refresh") (Web.Handler.refresh codecs d.auth_handler) []
      ∷ []
