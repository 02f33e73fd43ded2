-- ===== src/Tests/Hashed.antt =====
-- A registration and a login on the fixture, and the hashes that the tables keep afterwards.
use go_auth_refresh_template.Base.{refl}
use go_auth_refresh_template.World.{World, ok, next_draw}
use go_auth_refresh_template.Web.Http.{Request}
use go_auth_refresh_template.Web.Handler.{register_user}
use go_auth_refresh_template.Web.Server.{setup_routes, wrap_handler}
use go_auth_refresh_template.Web.Mux.Served.{Served, next}
use go_auth_refresh_template.Web.Hashed.{AllHashed, routes_store_hashes}
use go_auth_refresh_template.Tests.Fixture.{env, config, start}
use go_auth_refresh_template.Tests.Web.{codecs, request, logged_in_after, then_logs_in}

abbrev register_request : Request
register_request = record request { path = "/auth/register" }

abbrev registered : World
registered = (register_user env codecs config register_request start).1

abbrev logged_in : World
logged_in = logged_in_after (next_draw registered)

registers_and_logs_in :
    Served (setup_routes env codecs config (λ page. ok page) "openapi") start logged_in
unfolding setup_routes wrap_handler
registers_and_logs_in =
    next {m = register_user env codecs config register_request} register_request refl
      (then_logs_in registered)

start-AllHashed : AllHashed env config start.db
start-AllHashed = record {
  users = (
    record { draw = 0; password = "secret"; made = refl },
    (record { draw = 0; password = "hunter"; made = refl }, tt),
  );
  otp = tt;
  password_reset_tokens = tt;
}

routes_store_hashes_example : AllHashed env config logged_in.db
routes_store_hashes_example =
    routes_store_hashes env codecs config (λ page. ok page) "openapi" {w = start} {w₂ = logged_in}
      registers_and_logs_in start-AllHashed
