-- ===== src/Objects/Agreement.antt =====
-- The methods of the object graph that `setupDependencies` of internal/app/app.go builds, against the
-- functions that take the settings and the outside.
use go_auth_refresh_template.Base.{◌≡◌, refl, String}
use go_auth_refresh_template.Domain.{Config}
use go_auth_refresh_template.World.{Env, Outcome}
use go_auth_refresh_template.Service
use go_auth_refresh_template.Repository
use go_auth_refresh_template.Web
use go_auth_refresh_template.Web.Payload.{Codecs}
use go_auth_refresh_template.Objects
use go_auth_refresh_template.Objects.Queries.{queries}
use go_auth_refresh_template.Objects.Dependencies.{Dependencies, setup_dependencies}

-- The repositories.
repositories_run : Unit {0}
unfolding Objects.Sqlc.User.save Objects.Sqlc.User.get_by_id Objects.Sqlc.User.get_by_email
    Objects.Sqlc.User.update_password Objects.Sqlc.RefreshToken.save
    Objects.Sqlc.RefreshToken.consume Objects.Sqlc.RefreshToken.delete
    Objects.Sqlc.RefreshToken.delete_by_user_id Objects.Sqlc.ResetToken.save
    Objects.Sqlc.ResetToken.consume Objects.Sqlc.Otp.save Objects.Sqlc.Otp.invalidate_by_identifier
    Objects.Sqlc.Otp.consume Objects.Sqlc.Otp.consume_by_challenge_id
    Objects.Sqlc.Otp.increase_attempts Repository.User.save Repository.User.get_by_id
    Repository.User.get_by_email Repository.User.update_password Repository.RefreshToken.save
    Repository.RefreshToken.consume Repository.RefreshToken.delete
    Repository.RefreshToken.delete_by_user_id Repository.ResetToken.save
    Repository.ResetToken.consume Repository.Otp.save Repository.Otp.invalidate_by_identifier
    Repository.Otp.consume Repository.Otp.consume_by_challenge_id Repository.Otp.increase_attempts
repositories_run = tt

-- The services, and the graph.
services_run : Unit {0}
unfolding repositories_run setup_dependencies Objects.Service.User.get_profile
    Service.User.get_profile Objects.Service.RefreshToken.generate_refresh_token
    Objects.Service.RefreshToken.refresh Objects.Service.RefreshToken.revoke
    Service.RefreshToken.generate_refresh_token Service.RefreshToken.new_token
    Service.RefreshToken.issue Service.RefreshToken.rotate_for Service.RefreshToken.rotate
    Service.RefreshToken.refresh Service.RefreshToken.revoke Objects.Email.send_code
    Service.Otp.send_mail Objects.Service.Otp.send_code Objects.Service.Otp.verify_login_code
    Objects.Service.Otp.verify_password_reset_code Service.Otp.random_code Service.Otp.replace_code
    Service.Otp.new_otp Service.Otp.store_code Service.Otp.mail_code Service.Otp.send_code_to
    Service.Otp.send_code Service.Otp.verify_login_code Service.Otp.grant_reset_token
    Service.Otp.after_consume Service.Otp.verify_password_reset_code
    Objects.Service.Auth.register_user Objects.Service.Auth.login
    Objects.Service.Auth.login_with_otp Objects.Service.Auth.reset_password
    Service.Auth.register_user Service.Auth.issue_tokens Service.Auth.login
    Service.Auth.login_with_otp Service.Auth.apply_reset Service.Auth.reset_password
services_run = tt

module _ (env : Env) (codecs : Codecs) (config : Config) where
  abbrev d : Dependencies
  d = setup_dependencies env (queries env) config

  -- The routes over the object graph that `setupDependencies` builds, of the repositories on the
  -- statements, the unit of work, the services over their interfaces, the cookies, the middleware and the
  -- handlers, each with its part of the settings, are the routes whose handlers take all the settings
  -- and the outside.
  pub dependencies_agree :
      (template : String → Outcome String) (spec : String)
      → Objects.Dependencies.setup_routes codecs template spec d
        ≡ Web.Server.setup_routes env codecs config template spec
  unfolding services_run Objects.Dependencies.setup_routes Web.Server.setup_routes Web.Server.get
      Web.Server.post Web.Server.handle Web.Server.wrap_handler Objects.Web.Cookie.set_cookie
      Objects.Web.Cookie.delete_cookie Web.Cookie.set_cookie Web.Cookie.delete_cookie
      Objects.Web.Middleware.authenticate Web.Middleware.authenticate
      Objects.Web.Handler.register_user Objects.Web.Handler.login Objects.Web.Handler.send_otp
      Objects.Web.Handler.login_with_otp Objects.Web.Handler.refresh Objects.Web.Handler.logout
      Objects.Web.Handler.verify_password_reset_code Objects.Web.Handler.reset_password
      Objects.Web.Handler.get_user_profile Web.Handler.register_user Web.Handler.login
      Web.Handler.send_otp Web.Handler.login_with_otp Web.Handler.refresh Web.Handler.logout
      Web.Handler.verify_password_reset_code Web.Handler.reset_password Web.Handler.get_user_profile
  dependencies_agree template spec = refl
