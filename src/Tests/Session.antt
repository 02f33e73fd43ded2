-- ===== src/Tests/Session.antt =====
-- The cookie of a login and of a logout, and a login with a code, on the fixture.
use go_auth_refresh_template.Base.{
  true, none, some, [], ◌∷◌, negsuc, ◌≡◌, refl, arith, find, pos, ◌==◌, id_key, text_key,
  if◌then◌else◌,
}
use go_auth_refresh_template.Domain.{Uuid, User, is_production}
use go_auth_refresh_template.Database.{OtpRow}
use go_auth_refresh_template.Database.Users
use go_auth_refresh_template.Database.Otps.{consume_otp_code}
use go_auth_refresh_template.Database.RefreshTokens.{
  is_live, save_refresh_token, delete_refresh_token,
}
use go_auth_refresh_template.Database.RefreshTokens.Sessions.{session}
use go_auth_refresh_template.World.{World, ok}
use go_auth_refresh_template.Secure.{check_password, hash_otp}
use go_auth_refresh_template.Secure.Format.{encode_to_string}
use go_auth_refresh_template.Repository
use go_auth_refresh_template.Repository.RefreshToken.{save}
use go_auth_refresh_template.Service
use go_auth_refresh_template.Service.Jwt.{generate_access_token}
use go_auth_refresh_template.Service.Jwt.RoundTrip.{claims_of}
use go_auth_refresh_template.Service.Otp.{verify_login_code}
use go_auth_refresh_template.Service.RefreshToken.{new_token, generate_refresh_token}
use go_auth_refresh_template.Service.RefreshToken.Laws.{minted}
use go_auth_refresh_template.Service.Auth.{issue_tokens, login_with_otp}
use go_auth_refresh_template.Service.Auth.OtpLogin.{serves, login_with_otp_opens_session}
use go_auth_refresh_template.Web.Http.{Response, Cookie, write_header}
use go_auth_refresh_template.Web.Cookie.{set_cookie, delete_cookie, get_cookie, cookie_name}
use go_auth_refresh_template.Web.Payload.{LoginPayload, receive}
use go_auth_refresh_template.Web.Handler
use go_auth_refresh_template.Web.Handler.{login_succeeded}
use go_auth_refresh_template.Web.Session.{login_sets_session, logout_ends_session}
use go_auth_refresh_template.Tests.Fixture.{env, config, db, start, id_text}
use go_auth_refresh_template.Tests.Web.{codecs, request}

unfoldable pub run_handlers : Unit {0}
unfolding Handler.login Handler.logout receive Service.Auth.login issue_tokens generate_access_token
    generate_refresh_token new_token save save_refresh_token check_password
    Repository.User.get_by_email Users.get_by_email set_cookie delete_cookie get_cookie
    is_production Service.RefreshToken.revoke Repository.RefreshToken.delete delete_refresh_token
run_handlers = tt

abbrev logged_in : World
logged_in = (Handler.login env codecs config request start).1

abbrev welcome : Response
welcome = login_succeeded env codecs config ("u0", id_text 24)

login_sets_session_example :
    (payload : LoginPayload) × (user : User) × (cookie : Cookie) × (receive codecs.login
        request.body
      ≡ ok payload)
    × (find (λ u. u.email == payload.email) db.users ≡ some user)
    × (check_password env user.password payload.password ≡ true)
    × (welcome.status ≡ 200)
    × (welcome.set_cookies ≡ cookie ∷ [])
    × (cookie.http_only ≡ true)
    × (cookie.secure ≡ is_production config)
    × (get_cookie (record request { cookies = (cookie.name, cookie.value) ∷ [] })
        ≡ some (id_text 24))
    × (session 2000 logged_in.db.refresh_tokens 24 ≡ (
        if is_live 2000 24 (minted env config user.id 4)
        then some user.id
        else session 2000 db.refresh_tokens 24))
unfolding run_handlers
login_sets_session_example =
    login_sets_session env codecs config request request start 2000 24 {response = welcome}
      {access = "u0"} {w' = logged_in} refl refl

abbrev logged_out : World
logged_out = (Handler.logout env codecs config request start).1

abbrev farewell : Response
farewell = delete_cookie config (write_header 204)

logout_ends_session_example :
    (id : Uuid) × (cookie : Cookie) × (env.uuid_parse "u0000000" ≡ some id)
    × (session 2000 logged_out.db.refresh_tokens 7
        ≡ (if id == 7 then none else session 2000 db.refresh_tokens 7))
    × (logged_out.db ≡ record db { refresh_tokens = logged_out.db.refresh_tokens })
    × (farewell.status ≡ 204)
    × (farewell.set_cookies ≡ cookie ∷ [])
    × (cookie.name ≡ cookie_name)
    × (cookie.max_age ≡ negsuc 0)
unfolding run_handlers
logout_ends_session_example =
    logout_ends_session env codecs config request start 2000 7 {value = "u0000000"}
      {response = farewell} {w' = logged_out} refl refl refl

-- A code of Ann's, whose HMAC in the fixture is the byte 49.
abbrev code_of_ann : OtpRow
code_of_ann = record {
  id = 9;
  identifier = "ann@x";
  code_hash = "31";
  attempts = pos 0;
  expires_at = 5000;
  created_at = 900;
}

abbrev with_code : World
with_code = record start { db = record db { otp = code_of_ann ∷ [] } }

run_otp_login : Unit {0}
unfolding run_handlers login_with_otp verify_login_code Repository.Otp.consume consume_otp_code
    hash_otp encode_to_string
run_otp_login = tt

abbrev coded_in : World
coded_in = (login_with_otp env config "ann@x" "1" with_code).1

login_with_otp_opens_session_example :
    (user : User) × (row : OtpRow) × (find (λ u. u.email == "ann@x") db.users ≡ some user)
    × (find (serves env config 1001 "1" "ann@x") (code_of_ann ∷ []) ≡ some row)
    × (find (serves env config 3000 "1" "ann@x") coded_in.db.otp ≡ none)
    × (env.jwt_sign "key" (claims_of env config.jwt user.id 2) ≡ ok "u0")
    × (id_text 25 ≡ id_text 25)
    × (session 2000 coded_in.db.refresh_tokens 25 ≡ (
        if is_live 2000 25 (minted env config user.id 5)
        then some user.id
        else session 2000 db.refresh_tokens 25))
    × (coded_in.db.users ≡ db.users)
    × (coded_in.db.password_reset_tokens ≡ [])
unfolding run_otp_login
login_with_otp_opens_session_example =
    login_with_otp_opens_session env config "ann@x" "1" with_code 2000 25 3000 {access = "u0"}
      {refresh = id_text 25} {w' = coded_in} refl refl (omega arith)
