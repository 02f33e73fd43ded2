-- ===== src/Tests/App.antt =====
-- The start of the process, and the middlewares of a route, on the fixture.
use go_auth_refresh_template.Base.{none, some, [], ◌∷◌, ◌≡◌, All, refl}
use go_auth_refresh_template.Errors.{external}
use go_auth_refresh_template.World.{ok}
use go_auth_refresh_template.Web.Http.{Handler}
use go_auth_refresh_template.Web.Handler.{get_user_profile}
use go_auth_refresh_template.Web.Middleware.{authenticate}
use go_auth_refresh_template.Web.Server.{exact, handle}
use go_auth_refresh_template.Web.Server.Order.{handle_lem}
use go_auth_refresh_template.App.{Host, main, new_postgres_connection}
use go_auth_refresh_template.App.Migration
use go_auth_refresh_template.App.Migration.{Goose, done, fatal}
use go_auth_refresh_template.App.Start.{IsProper, main_serves}
use go_auth_refresh_template.Tests.Configs.{system, run_listen}
use go_auth_refresh_template.Tests.Fixture.{env, config}
use go_auth_refresh_template.Tests.Web.{codecs}

-- A host whose database answers, and whose server ends.
abbrev host : Host
host = record {
  open_database = λ name. none;
  ping = λ name. none;
  listen_and_serve = λ s. some (external "closed");
}

main_serves_example :
    All
      (IsProper system host env codecs (λ page. ok page) "openapi")
      (main system host env codecs (λ page. ok page) "openapi")
main_serves_example = main_serves system host env codecs (λ page. ok page) "openapi"

abbrev twice : Handler
twice = authenticate env config (authenticate env config (get_user_profile env codecs config))

handle_lem_example :
    (handle "GET"
      (exact "/me")
      (get_user_profile env codecs config)
      (authenticate env config ∷ authenticate env config ∷ [])).handler
    ≡ twice
handle_lem_example =
    handle_lem "GET" (exact "/me") (get_user_profile env codecs config)
      (authenticate env config ∷ authenticate env config ∷ [])

-- The migration of a database that answers, and of one that does not.
abbrev goose : Goose
goose = record { set_dialect = λ name. none; up = λ name directory. none }

migrates : Migration.main system host goose ≡ done
unfolding Migration.main run_listen new_postgres_connection
migrates = refl

not_migrated :
    Migration.main system (record host { ping = λ name. some (external "refused") }) goose
    ≡ fatal (external "refused")
unfolding Migration.main run_listen new_postgres_connection
not_migrated = refl
