-- ===== src/Web/Session.antt =====
-- What the handlers `Login` and `Logout` of internal/web/handler/auth.go do to the cookie and to the
-- session that it stands for.
use go_auth_refresh_template.Base.{
  ◌+◌, String, true, none, some, [], ◌∷◌, negsuc, pos, ◌/◌, ◌≡◌, ◌≢◌, refl, inl, inr, arith, find,
  ◌==◌, id_key, text_key, if◌then◌else◌,
}
use go_auth_refresh_template.Domain
use go_auth_refresh_template.Domain.{Uuid, Time, Config, is_production}
use go_auth_refresh_template.Errors.{Error}
use go_auth_refresh_template.Database.RefreshTokens.{is_live}
use go_auth_refresh_template.Database.RefreshTokens.Sessions.{session}
use go_auth_refresh_template.World.{Env, World, ok}
use go_auth_refresh_template.World.Laws.{outcome-cases}
use go_auth_refresh_template.Secure.{check_password}
use go_auth_refresh_template.Service
use go_auth_refresh_template.Service.RefreshToken.Laws.{minted}
use go_auth_refresh_template.Service.RefreshToken.Rotation.{revoke_ends}
use go_auth_refresh_template.Service.Auth.Login.{login_opens_session}
use go_auth_refresh_template.Web.Http.{
  Request, Response, Cookie, login_response, empty, default_mode, strict_mode,
}
use go_auth_refresh_template.Web.Errors.{handle_error}
use go_auth_refresh_template.Web.Errors.Bodies.{handle_error-IsErrorBody}
use go_auth_refresh_template.Web.Cookie.{set_cookie, delete_cookie, get_cookie, cookie_name}
use go_auth_refresh_template.Web.Payload.{Codecs, LoginPayload, receive}
use go_auth_refresh_template.Web.Handler
use go_auth_refresh_template.Web.Handler.{login_succeeded}

module _ (env : Env) (codecs : Codecs) (config : Config) where
  handle_error-login : (e : Error) (access : String) → (handle_error e).body ≢ login_response access
  handle_error-login e access h = elim (handle_error-IsErrorBody e) [
    | inl x ↦ ground arith
    | inr (message, code, causes, x) ↦ ground arith
  ]

  handle_error-empty : (e : Error) → (handle_error e).body ≢ empty
  handle_error-empty e h = elim (handle_error-IsErrorBody e) [
    | inl x ↦ ground arith
    | inr (message, code, causes, x) ↦ ground arith
  ]

  -- The cookie that `SetCookie` writes.
  abbrev session_cookie : String → Cookie
  session_cookie value = record {
    name = cookie_name;
    value = value;
    path = "/";
    max_age = pos (config.refresh_token.duration / 1000000000);
    http_only = true;
    secure = is_production config;
    same_site = default_mode;
  }

  -- A login that is answered with an access token was given the email and the password of a user. The
  -- answer has status 200 and one cookie, which scripts cannot read and which is for HTTPS only in
  -- production; a request that sends it back carries the id of a refresh token that is a session of
  -- this user while its row is live. Every other session is as it was.
  pub login_sets_session :
      (r r₂ : Request) (w : World) (t : Time) (j : Uuid) {response : Response} {access : String}
      {w' : World}
      → Handler.login env codecs config r w ≡ (ok response, w')
      → response.body ≡ login_response access
      → (payload : LoginPayload) × (user : Domain.User) × (cookie : Cookie) × (receive codecs.login
            r.body
          ≡ ok payload)
        × (find (λ u. u.email == payload.email) w.db.users ≡ some user)
        × (check_password env user.password payload.password ≡ true)
        × (response.status ≡ 200)
        × (response.set_cookies ≡ cookie ∷ [])
        × (cookie.http_only ≡ true)
        × (cookie.secure ≡ is_production config)
        × (get_cookie (record r₂ { cookies = (cookie.name, cookie.value) ∷ [] })
            ≡ some (env.uuid_string (env.uuid_new (w.draws + 4))))
        × (session t w'.db.refresh_tokens j ≡ (
            if is_live t j (minted env config user.id (w.draws + 4))
            then some user.id
            else session t w.db.refresh_tokens j))
  unfolding Handler.login set_cookie get_cookie is_production
  login_sets_session r r₂ w t j {response} {access} {w'} h shows =
      elim (outcome-cases (receive codecs.login r.body)) [
        | inr (inl (e, x)) ↦ absurd (handle_error-login e access (ground arith))
        | inr (inr (s, x)) ↦ ground arith
        | inl (payload, x) ↦
            elim (outcome-cases
              (Service.Auth.login env config payload.email payload.password w).0) [
                | inr (inl (e, y)) ↦ absurd (handle_error-login e access (ground arith))
                | inr (inr (s, y)) ↦ ground arith
                | inl ((token, refresh), y) ↦
                    let (user, known, right, signed, named, new, opened, rest) =
                      login_opens_session env config payload.email payload.password w t j
                        {access = token} {refresh = refresh} {w' = w'} (ground arith) in
                    let answered : response ≡ login_succeeded env codecs config (token, refresh) =
                      ground arith in
                    let cookie = session_cookie refresh in
                    (
                      payload,
                      user,
                      cookie,
                      x,
                      known,
                      right,
                      ground arith,
                      ground arith,
                      refl,
                      refl,
                      ground arith,
                      opened,
                    )
              ]
      ]

  -- A logout with a cookie that is answered without a body was given the id of a refresh token: at any
  -- time that token has no session afterwards, every other session and every other table is as it was,
  -- the status is 204, and the browser is told to drop the cookie.
  pub logout_ends_session :
      (r : Request) (w : World) (t : Time) (j : Uuid) {value : String} {response : Response}
      {w' : World}
      → get_cookie r ≡ some value
      → Handler.logout env codecs config r w ≡ (ok response, w')
      → response.body ≡ empty
      → (id : Uuid) × (cookie : Cookie) × (env.uuid_parse value ≡ some id)
        × (session t w'.db.refresh_tokens j
            ≡ (if id == j then none else session t w.db.refresh_tokens j))
        × (w'.db ≡ record (w.db) { refresh_tokens = w'.db.refresh_tokens })
        × (response.status ≡ 204)
        × (response.set_cookies ≡ cookie ∷ [])
        × (cookie.name ≡ cookie_name)
        × (cookie.max_age ≡ negsuc 0)
  unfolding Handler.logout delete_cookie is_production
  logout_ends_session r w t j {value} {response} {w'} sent h none_left =
      elim (outcome-cases (Service.RefreshToken.revoke env config value w).0) [
        | inr (inl (e, x)) ↦ absurd (handle_error-empty e (ground arith))
        | inr (inr (s, x)) ↦ ground arith
        | inl (_, x) ↦
            let (id, parsed, ended, rest) =
              revoke_ends env config value w t j {w' = w'} (ground arith) in
            (
              id,
              record {
                name = cookie_name;
                value = "";
                path = "/";
                max_age = negsuc 0;
                http_only = true;
                secure = is_production config;
                same_site = strict_mode;
              },
              parsed,
              ended,
              rest,
              ground arith,
              ground arith,
              refl,
              refl,
            )
      ]
