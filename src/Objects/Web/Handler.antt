-- ===== src/Objects/Web/Handler.antt =====
-- `AuthHandler` and `UserHandler` of internal/web/handler.
use go_auth_refresh_template.Base.{String, none, some}
use go_auth_refresh_template.Domain.{uuid_nil}
use go_auth_refresh_template.World.{pure, ◌>>=◌, ◌>>◌, from_outcome}
use go_auth_refresh_template.Web.Http.{
  Response, Handler, text, login_response, verify_otp_response, send_otp_response, get_profile,
  handle_json, write_header,
}
use go_auth_refresh_template.Web.Errors.{handle_error}
use go_auth_refresh_template.Web.Payload.{Codecs, receive}
use go_auth_refresh_template.Web.Cookie.{get_cookie}
use go_auth_refresh_template.Web.Handler.{answer, missing_cookie}
use go_auth_refresh_template.Objects.Web.Cookie.{CookieManager, set_cookie, delete_cookie}
use go_auth_refresh_template.Objects.Service.User.{UserService}
use go_auth_refresh_template.Objects.Service.RefreshToken.{RefreshTokenService}
use go_auth_refresh_template.Objects.Service.Otp.{OtpService}
use go_auth_refresh_template.Objects.Service.Auth.{AuthService}

pub record AuthHandler : Type 0 where
  pub auth_service : AuthService
  pub refresh_token_service : RefreshTokenService
  pub otp_service : OtpService
  pub cookie_manager : CookieManager

abbrev pub new_auth_handler :
    AuthService → RefreshTokenService → OtpService → CookieManager → AuthHandler
new_auth_handler auth_service refresh_token_service otp_service cookie_manager = record {
  auth_service = auth_service;
  refresh_token_service = refresh_token_service;
  otp_service = otp_service;
  cookie_manager = cookie_manager;
}

module _ (codecs : Codecs) (h : AuthHandler) where
  unfoldable pub register_user : Handler
  unfolding handle_error receive
  register_user r = answer handle_error do
    payload ← from_outcome (receive codecs.register_user r.body)
    h.auth_service.register_user (record {
      id = uuid_nil;
      email = payload.email;
      password = payload.password;
      username = payload.username;
    })
    pure (write_header 201)

  -- The two tokens of a login: one in a cookie, one in the body.
  abbrev login_succeeded : String × String → Response
  login_succeeded (access_token, refresh_token) =
      set_cookie h.cookie_manager refresh_token (handle_json 200 (login_response access_token))

  unfoldable pub login : Handler
  unfolding handle_error receive
  login r = answer handle_error do
    payload ← from_outcome (receive codecs.login r.body)
    tokens ← h.auth_service.login payload.email payload.password
    pure (login_succeeded tokens)

  unfoldable pub send_otp : Handler
  unfolding handle_error receive
  send_otp r = answer handle_error do
    payload ← from_outcome (receive codecs.send_otp r.body)
    challenge_id ← h.otp_service.send_code payload.email
    pure (handle_json 200 (send_otp_response challenge_id))

  unfoldable pub login_with_otp : Handler
  unfolding handle_error receive
  login_with_otp r = answer handle_error do
    payload ← from_outcome (receive codecs.verify_otp r.body)
    tokens ← h.auth_service.login_with_otp payload.email payload.code
    pure (login_succeeded tokens)

  abbrev refresh_succeeded : String × String → Response
  refresh_succeeded (access_token, refresh_token) =
      set_cookie h.cookie_manager refresh_token (handle_json 200 (text access_token))

  unfoldable pub refresh : Handler
  unfolding handle_error get_cookie
  refresh r = elim (get_cookie r) [
    | none ↦ pure (handle_error missing_cookie)
    | some value ↦
        answer handle_error
          do tokens ← h.refresh_token_service.refresh value; pure (refresh_succeeded tokens)
  ]

  -- The cookie is deleted whatever happens.
  unfoldable pub logout : Handler
  unfolding handle_error get_cookie delete_cookie
  logout r = elim (get_cookie r) [
    | none ↦ pure (delete_cookie h.cookie_manager (write_header 204))
    | some value ↦
        answer (λ e. delete_cookie h.cookie_manager (handle_error e))
          do
            h.refresh_token_service.revoke value
            pure (delete_cookie h.cookie_manager (write_header 204))
  ]

  unfoldable pub verify_password_reset_code : Handler
  unfolding handle_error receive
  verify_password_reset_code r = answer handle_error do
    payload ← from_outcome (receive codecs.verify_password_reset_code r.body)
    reset_token ← h.otp_service.verify_password_reset_code payload.code payload.challenge_id
    pure (handle_json 200 (verify_otp_response reset_token))

  unfoldable pub reset_password : Handler
  unfolding handle_error receive
  reset_password r = answer handle_error do
    payload ← from_outcome (receive codecs.reset_password r.body)
    h.auth_service.reset_password payload.reset_token payload.password
    pure (write_header 204)

pub record UserHandler : Type 0 where
  pub user_service : UserService

abbrev pub new_user_handler : UserService → UserHandler
new_user_handler user_service = record { user_service = user_service }

module _ (h : UserHandler) where
  unfoldable pub get_user_profile : Handler
  unfolding handle_error
  get_user_profile r = answer handle_error do
    user ← h.user_service.get_profile r.path_id
    pure (handle_json 200 (get_profile user.email user.username))
