-- ===== src/Web/Handler.antt =====
-- internal/web/handler: auth.go, user.go and swagger.go.
use go_auth_refresh_template.Base.{String, [], none, some, ◌==◌, text_key, if◌then◌else◌}
use go_auth_refresh_template.Domain.{Config, uuid_nil}
use go_auth_refresh_template.Errors.{
  Error, sentinel, one, new_unauthenticated_error, invalid_refresh_token,
}
use go_auth_refresh_template.World.{
  Env, Outcome, ok, err, panics, Action, pure, ◌>>=◌, ◌>>◌, from_outcome,
}
use go_auth_refresh_template.Service
use go_auth_refresh_template.Web.Http.{
  Response, Handler, text, login_response, verify_otp_response, send_otp_response, get_profile,
  document, empty, handle_json, handle_html, write_header,
}
use go_auth_refresh_template.Web.Errors.{handle_error}
use go_auth_refresh_template.Web.Cookie.{set_cookie, get_cookie, delete_cookie}
use go_auth_refresh_template.Web.Payload.{Codecs, receive}

-- `if err != nil { HandleError(w, err); return }`: the error `e` becomes the response `on_error e`.
abbrev pub answer : (Error → Response) → Action Response → Action Response
answer on_error m w =
    let (r, w') = m w in
    elim r [
      | ok response ↦ (ok response, w')
      | err e ↦ (ok (on_error e), w')
      | panics s ↦ (panics s, w')
    ]

abbrev pub missing_cookie : Error
missing_cookie =
    new_unauthenticated_error "refresh token was not provided"
      (one (sentinel invalid_refresh_token))

module _ (env : Env) (codecs : Codecs) (config : Config) where
  unfoldable pub register_user : Handler
  unfolding handle_error receive
  register_user r = answer handle_error do
    payload ← from_outcome (receive codecs.register_user r.body)
    Service.Auth.register_user env config (record {
      id = uuid_nil;
      email = payload.email;
      password = payload.password;
      username = payload.username;
    })
    pure (write_header 201)

  -- The two tokens of a login: one in a cookie, one in the body.
  abbrev pub login_succeeded : String × String → Response
  login_succeeded (access_token, refresh_token) =
      set_cookie config refresh_token (handle_json 200 (login_response access_token))

  unfoldable pub login : Handler
  unfolding handle_error receive
  login r = answer handle_error do
    payload ← from_outcome (receive codecs.login r.body)
    tokens ← Service.Auth.login env config payload.email payload.password
    pure (login_succeeded tokens)

  unfoldable pub send_otp : Handler
  unfolding handle_error receive
  send_otp r = answer handle_error do
    payload ← from_outcome (receive codecs.send_otp r.body)
    challenge_id ← Service.Otp.send_code env config payload.email
    pure (handle_json 200 (send_otp_response challenge_id))

  unfoldable pub login_with_otp : Handler
  unfolding handle_error receive
  login_with_otp r = answer handle_error do
    payload ← from_outcome (receive codecs.verify_otp r.body)
    tokens ← Service.Auth.login_with_otp env config payload.email payload.code
    pure (login_succeeded tokens)

  abbrev refresh_succeeded : String × String → Response
  refresh_succeeded (access_token, refresh_token) =
      set_cookie config refresh_token (handle_json 200 (text access_token))

  unfoldable pub refresh : Handler
  unfolding handle_error get_cookie
  refresh r = elim (get_cookie r) [
    | none ↦ pure (handle_error missing_cookie)
    | some value ↦
        answer handle_error
          do tokens ← Service.RefreshToken.refresh env config value; pure (refresh_succeeded tokens)
  ]

  -- The cookie is deleted whatever happens.
  unfoldable pub logout : Handler
  unfolding handle_error get_cookie delete_cookie
  logout r = elim (get_cookie r) [
    | none ↦ pure (delete_cookie config (write_header 204))
    | some value ↦
        answer (λ e. delete_cookie config (handle_error e))
          do
            Service.RefreshToken.revoke env config value
            pure (delete_cookie config (write_header 204))
  ]

  unfoldable pub verify_password_reset_code : Handler
  unfolding handle_error receive
  verify_password_reset_code r = answer handle_error do
    payload ← from_outcome (receive codecs.verify_password_reset_code r.body)
    reset_token ←
        Service.Otp.verify_password_reset_code env config payload.code payload.challenge_id
    pure (handle_json 200 (verify_otp_response reset_token))

  unfoldable pub reset_password : Handler
  unfolding handle_error receive
  reset_password r = answer handle_error do
    payload ← from_outcome (receive codecs.reset_password r.body)
    Service.Auth.reset_password env config payload.reset_token payload.password
    pure (write_header 204)

  -- `UserHandler.GetProfile`
  unfoldable pub get_user_profile : Handler
  unfolding handle_error
  get_user_profile r = answer handle_error do
    user ← Service.User.get_profile env r.path_id
    pure (handle_json 200 (get_profile user.email user.username))

-- swagger.go. `http.Redirect` describes the address in a small page, except to a HEAD request.
unfoldable pub redirect_swagger : Handler
redirect_swagger r = pure (record {
  status = 301;
  content_type = "text/html; charset=utf-8";
  location = "/swagger/";
  set_cookies = [];
  body =
      if r.method == "GET"
      then document "<a href=\"/swagger/\">Moved Permanently</a>.\n\n"
      else empty;
})

-- The template, executed with the address of the document, may fail.
unfoldable pub swagger_ui : (String → Outcome String) → Handler
swagger_ui template r w = elim (template "/swagger/openapi.yaml") [
  | ok page ↦ (ok (handle_html 200 page), w)
  | err e ↦ (
    ok (record (write_header 500) {
      content_type = "text/plain; charset=utf-8";
      body = document "failed to render swagger UI\n";
    }),
    w,
  )
  | panics s ↦ (panics s, w)
]

-- `spec` is the document embedded from docs/openapi.yaml.
unfoldable pub swagger_spec : String → Handler
swagger_spec spec r = pure (record (write_header 200) {
  content_type = "application/yaml; charset=utf-8";
  body = document spec;
})
