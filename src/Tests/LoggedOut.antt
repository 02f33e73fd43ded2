-- ===== src/Tests/LoggedOut.antt =====
-- Requests after a logout, on the fixture.
use go_auth_refresh_template.Base.{none, ◌≡◌, ◌≢◌, refl, arith}
use go_auth_refresh_template.World.{World, ok, next_draw}
use go_auth_refresh_template.Service.RefreshToken
use go_auth_refresh_template.Database.RefreshTokens.Sessions.{session}
use go_auth_refresh_template.Web.Http.{write_header}
use go_auth_refresh_template.Web.Cookie.{delete_cookie, get_cookie}
use go_auth_refresh_template.Web.Server.{setup_routes, wrap_handler}
use go_auth_refresh_template.Web.Handler.{logout, refresh}
use go_auth_refresh_template.Web.Mux.Served.{Served, next}
use go_auth_refresh_template.Web.LoggedOut.{logged_out_for_ever}
use go_auth_refresh_template.Domain.{is_production}
use go_auth_refresh_template.Database.RefreshTokens.{delete_refresh_token}
use go_auth_refresh_template.Repository.RefreshToken.{delete}
use go_auth_refresh_template.Tests.Fixture.{env, config, start}
use go_auth_refresh_template.Tests.Web.{codecs, request, then_logs_in, logged_in_after}

run_logout : Unit {0}
unfolding logout get_cookie delete_cookie is_production RefreshToken.revoke delete
    delete_refresh_token
run_logout = tt

abbrev left : World
left = (logout env codecs config request start).1

-- The world after a refresh with the old cookie, and then after a login.
abbrev refused : World
refused = (refresh env codecs config request left).1

abbrev back : World
back = logged_in_after (next_draw refused)

afterwards : Served (setup_routes env codecs config (λ page. ok page) "openapi") left back
unfolding setup_routes wrap_handler
afterwards = next {m = refresh env codecs config request} request refl (then_logs_in refused)

logged_out_for_ever_example :
    (session 2000 back.db.refresh_tokens 7 ≡ none)
    × (RefreshToken.refresh env config "u0000000" back ≢ (ok ("", ""), back))
unfolding run_logout
logged_out_for_ever_example =
    logged_out_for_ever env codecs config (λ page. ok page) "openapi" request start back 2000 7
      {value = "u0000000"} {response = delete_cookie config (write_header 204)} {w' = left}
      {w₃ = back} {access = ""} {new = ""} refl refl refl refl (λ n later same. omega arith)
      afterwards
