-- ===== src/Tests/Web.antt =====
-- The routes on the fixture.
use go_auth_refresh_template.Base.{arith, [], ◌∷◌, refl}
use go_auth_refresh_template.World.{ok}
use go_auth_refresh_template.Web.Http.{Request}
use go_auth_refresh_template.Web.Payload.{Codec, Codecs}
use go_auth_refresh_template.Web.Server.{setup_routes, wrap_handler}
use go_auth_refresh_template.Web.Mux.Served.{Served, idle, wait, next}
use go_auth_refresh_template.Base.{◌⊎◌, ◌≡◌}
use go_auth_refresh_template.World.{World, next_draw}
use go_auth_refresh_template.Web.Http.{handle_json, client_err}
use go_auth_refresh_template.Web.Payload.{receive}
use go_auth_refresh_template.Web.Handler.{login, register_user, redirect_swagger, get_user_profile}
use go_auth_refresh_template.Web.Middleware.{authenticate}
use go_auth_refresh_template.Web.Middleware.Laws.{Authorized, authenticate_guards}
use go_auth_refresh_template.Errors.{
  one, sentinel, invalid_reset_token, domain, code_unauthenticated,
}
use go_auth_refresh_template.Web.Errors.{handle_error}
use go_auth_refresh_template.Web.Errors.Laws.{StatusOf, in_contexts, handle_error_status}
use go_auth_refresh_template.Web.Login.{login_uniform, register_user_taken}
use go_auth_refresh_template.Tests.Fixture.{bob, ann, db}
use go_auth_refresh_template.Tests.Fixture.{env, config, start}

abbrev pub codec : {P : Type 0} → P → Codec P
codec payload = record { decode = λ text. ok payload; validate = λ p. [] }

-- Decoders that read the same payload of every body.
abbrev pub codecs : Codecs
codecs = record {
  register_user = codec (record { email = "cy@x"; password = "pw"; username = "cy" });
  login = codec (record { email = "ann@x"; password = "secret" });
  send_otp = codec (record { email = "ann@x" });
  verify_otp = codec (record { email = "ann@x"; code = "004207" });
  verify_password_reset_code = codec (record { challenge_id = 9; code = "1" });
  reset_password = codec (record { password = "new"; reset_token = "to" });
}

abbrev pub request : Request
request = record {
  method = "POST";
  path = "/refresh";
  path_id = "u0";
  authorization = "Bearer u0";
  cookies = ("auth_cookie", "u0000000") ∷ [];
  body = "{}";
}

abbrev pub login_request : Request
login_request = record request { path = "/auth/login" }

abbrev pub logged_in_after : World → World
logged_in_after w = (login env codecs config login_request w).1

-- The server handles a login after `w`, when the clocks have gone on.
pub then_logs_in :
    (w : World)
    → Served
        (setup_routes env codecs config (λ page. ok page) "openapi")
        w
        (logged_in_after (next_draw w))
unfolding setup_routes wrap_handler
then_logs_in w =
    wait {w₁ = next_draw w} refl (omega arith)
      (next {m = login env codecs config login_request} login_request refl idle)

-- A decoder whose login is for an unknown email, and whose registration takes Ann's.
abbrev other_codecs : Codecs
other_codecs = record codecs {
  login = codec (record { email = "bob@x"; password = "guess" });
  register_user = codec (record { email = "ann@x"; password = "pw"; username = "cy" });
}

abbrev without_bob : World
without_bob = record start { db = record db { users = ann ∷ [] } }

login_uniform_example :
    ((login env other_codecs config request without_bob).0
      ≡ ok (handle_json 401 (client_err "invalid email or password" 401 [])))
    × ((login env other_codecs config request start).0
        ≡ (login env other_codecs config request without_bob).0)
    × ((login env other_codecs config request without_bob).1.db ≡ without_bob.db)
    × ((login env other_codecs config request start).1.db ≡ db)
unfolding receive
login_uniform_example =
    login_uniform env other_codecs config request without_bob start
      {payload = record { email = "bob@x"; password = "guess" }} {user = bob} refl refl refl refl
      refl refl

register_user_taken_example :
    ((register_user env other_codecs config request start).0
      ≡ ok (handle_json 409 (client_err "user email is already registered" 409 [])))
    × ((register_user env other_codecs config request start).1.db ≡ db)
unfolding receive
register_user_taken_example =
    register_user_taken env other_codecs config request start
      {payload = record { email = "ann@x"; password = "pw"; username = "cy" }} {hashed = "$pw"} refl
      refl refl refl refl refl

authenticate_guards_example :
    (Authorized env config request start
      × (authenticate env config (get_user_profile env codecs config) request start
          ≡ get_user_profile env codecs config request (next_draw start)))
    ⊎ (authenticate env config (get_user_profile env codecs config) request start
        ≡ authenticate env config redirect_swagger request start)
authenticate_guards_example =
    authenticate_guards env config (get_user_profile env codecs config) redirect_swagger request
      start

handle_error_status_example :
    handle_error (
      in_contexts
        ("running reset password transaction" ∷ [])
        (domain "invalid reset token" code_unauthenticated (one (sentinel invalid_reset_token))))
    ≡ handle_json 401 (client_err "invalid reset token" 401 [])
unfolding handle_error
handle_error_status_example =
    handle_error_status ("running reset password transaction" ∷ []) "invalid reset token"
      code_unauthenticated (one (sentinel invalid_reset_token)) 401 StatusOf.unauthenticated refl
