-- ===== src/Tests/Login.antt =====
-- Logins on the fixture, with a JWT library that signs one token.
use Prim.Native.String.{count}
use text.Mathlib.TextLemmas.{length-nil, length-cons}
use go_auth_refresh_template.Base.{
  ℕ, String, true, false, some, any, find, ◌≡◌, ◌≢◌, refl, arith, ◌==◌, ==_iff, ◌&&◌, ltb, id_key,
  text_key, sym, ap, ◌∙◌, ◌<◌, if◌then◌else◌,
}
use go_auth_refresh_template.Domain.{Time, User}
use go_auth_refresh_template.Errors.{external}
use go_auth_refresh_template.World.{
  Env, World, Outcome, ok, err, panics, RegisteredClaims, JwtToken, hmac, next_draw,
}
use go_auth_refresh_template.Service.Jwt.RoundTrip.{ReadsSigned, claims_of}
use go_auth_refresh_template.Secure.{check_password}
use go_auth_refresh_template.Database.Users
use go_auth_refresh_template.Database.RefreshTokens.{is_live, save_refresh_token}
use go_auth_refresh_template.Database.RefreshTokens.Sessions.{session}
use go_auth_refresh_template.Repository
use go_auth_refresh_template.Repository.RefreshToken.{save}
use go_auth_refresh_template.Service.Jwt.{generate_access_token, validate_access_token, key_func}
use go_auth_refresh_template.Service
use go_auth_refresh_template.Service.RefreshToken.{refresh, new_token, generate_refresh_token}
use go_auth_refresh_template.Service.RefreshToken.Laws.{minted}
use go_auth_refresh_template.Service.RefreshToken.Serves.{refresh_serves}
use go_auth_refresh_template.Service.Auth.{login, issue_tokens}
use go_auth_refresh_template.Service.Auth.Login.{login_opens_session}
use go_auth_refresh_template.Web.Http.{Request, handle_json, get_profile}
use go_auth_refresh_template.Web.Handler
use go_auth_refresh_template.Web.Handler.{get_user_profile}
use go_auth_refresh_template.Web.Middleware.{authorize, authenticate}
use go_auth_refresh_template.Web.Profile.{login_opens_profile}
use go_auth_refresh_template.Web.Server.{setup_routes, wrap_handler, one_segment}
use go_auth_refresh_template.Web.Mux.{matches, dispatch}
use go_auth_refresh_template.Web.Mux.Routes.{dispatch_lem}
use go_auth_refresh_template.Web.Mux.Guarded.{IsEntitled, profile_needs_token}
use go_auth_refresh_template.Tests.Web.{codecs, request, login_request}
use go_auth_refresh_template.Tests.Fixture.{
  ann, env, config, db, start, id_text, zeros, parse-id_text,
}

abbrev signed_claims : RegisteredClaims
signed_claims = claims_of env config.jwt 1 1

abbrev sign : String → RegisteredClaims → Outcome String
sign key c =
    if key == "key"
      && c.subject == signed_claims.subject
      && c.id == signed_claims.id
      && c.expires_at == signed_claims.expires_at
      && c.issued_at == signed_claims.issued_at
    then ok "jwt"
    else err (external "unknown claims")

abbrev read : Time → Outcome String → Outcome JwtToken
read now (ok key) =
    if key == "key" && ltb now signed_claims.expires_at
    then ok (record { claims = some signed_claims; valid = true })
    else err (external "invalid token")
read now (err e) = err e
read now (panics s) = panics s

abbrev signing : Env
signing = record env {
  jwt_sign = sign;
  jwt_parse = λ now text f.
      if text == "jwt" then read now (f (hmac "HS256")) else err (external "malformed");
}

sign-ok :
    (key : String) (c : RegisteredClaims) {token : String}
    → sign key c ≡ ok token
    → (token ≡ "jwt") × (key ≡ "key") × (c ≡ signed_claims)
sign-ok key c h =
    let same_key = ==_iff key "key" in
    let same_subject = ==_iff c.subject signed_claims.subject in
    let same_id = ==_iff c.id signed_claims.id in (ground arith, ground arith, ground arith)

text_differs : ◌≢◌ {A = String} "" "jwt"
text_differs h = let equal : false ≡ true = (==_iff {K = String} "" "jwt").1 h in ground arith

signing-ReadsSigned : ReadsSigned signing
signing-ReadsSigned = record {
  nonempty = λ key claims {token} e h.
      let (is, _, _) = sign-ok key claims {token = token} e in text_differs (sym h ∙ is);
  reads = λ key claims now f {token} e g before.
      let (is, same_key, same) = sign-ok key claims {token = token} e in
      let live : now < signed_claims.expires_at = rw same at before in
      rw (is, g, same_key, same) (ground arith);
}

run_login : Unit {0}
unfolding login issue_tokens generate_access_token generate_refresh_token new_token save
    save_refresh_token check_password Repository.User.get_by_email Users.get_by_email
run_login = tt

abbrev logged_in : World
logged_in = (login signing config "ann@x" "secret" start).1

logs_in : (login signing config "ann@x" "secret" start).0 ≡ ok ("jwt", id_text 24)
unfolding run_login
logs_in = refl

login_opens_session_example :
    (user : User) × (find (λ u. u.email == "ann@x") db.users ≡ some user)
    × (check_password signing user.password "secret" ≡ true)
    × (sign "key" (claims_of signing config.jwt user.id 1) ≡ ok "jwt")
    × (id_text 24 ≡ id_text 24)
    × (any (λ r. r.id == 24) db.refresh_tokens ≡ false)
    × (session 2000 logged_in.db.refresh_tokens 24 ≡ (
        if is_live 2000 24 (minted signing config user.id 4)
        then some user.id
        else session 2000 db.refresh_tokens 24))
    × (logged_in.db ≡ record db { refresh_tokens = logged_in.db.refresh_tokens })
unfolding run_login
login_opens_session_example =
    login_opens_session signing config "ann@x" "secret" start 2000 24 {access = "jwt"}
      {refresh = id_text 24} {w' = logged_in} refl

abbrev profile_request : Request
profile_request = record request { method = "GET"; path = "/user/u0"; authorization = "Bearer jwt" }

login_opens_profile_example :
    authenticate signing config (get_user_profile signing codecs config) profile_request logged_in
    ≡ (ok (handle_json 200 (get_profile "ann@x" "ann")), next_draw (next_draw logged_in))
unfolding run_login
login_opens_profile_example =
    login_opens_profile signing codecs config "ann@x" "secret" profile_request start logged_in
      {user = ann} {access = "jwt"} {refresh = id_text 24} {w' = logged_in} signing-ReadsSigned
      parse-id_text (refl, (refl, tt)) refl refl refl (omega arith) refl refl refl

id_text-full : (n : ℕ) → id_text n ≢ ""
id_text-full n h = omega (arith, ap count h ∙ length-nil, length-cons "u" (zeros n))

refresh_serves_example : (refresh env config "u0000000" start).0 ≡ ok (id_text 1, id_text 22)
refresh_serves_example =
    refresh_serves env config "u0000000" start {id = 7} {user = 1} {access = id_text 1}
      (parse-id_text 7) refl refl refl (λ n. refl) (λ n. (parse-id_text n, id_text-full n)) refl

-- A login, and the profile of "u0".
dispatch_lem_example :
    (dispatch (setup_routes env codecs config (λ page. ok page) "openapi") login_request
      ≡ some (Handler.login env codecs config login_request))
    × (dispatch
          (setup_routes env codecs config (λ page. ok page) "openapi")
          (record request { method = "GET"; path = "/user/u0" })
        ≡ some (
            authenticate env config
              (get_user_profile env codecs config)
              (record request { method = "GET"; path = "/user/u0" })))
dispatch_lem_example =
    dispatch_lem env codecs config (λ page. ok page) "openapi" login_request "u0" refl

shows :
    (authenticate signing config
      (get_user_profile signing codecs config)
      profile_request
      logged_in).0
    ≡ ok (handle_json 200 (get_profile "ann@x" "ann"))
unfolding run_login authenticate authorize validate_access_token key_func get_user_profile
    Service.User.get_profile Repository.User.get_by_id Users.get_user_by_id
shows = refl

profile_needs_token_example :
    (matches (one_segment "/user/") "/user/u0" ≡ true)
    × IsEntitled signing codecs config profile_request logged_in "ann@x" "ann"
unfolding run_login setup_routes wrap_handler
profile_needs_token_example =
    profile_needs_token signing codecs config (λ page. ok page) "openapi" profile_request logged_in
      {m = authenticate signing config (get_user_profile signing codecs config) profile_request}
      {response = handle_json 200 (get_profile "ann@x" "ann")} {email = "ann@x"} {username = "ann"}
      refl shows refl
