-- ===== src/App.antt =====
-- main.go, internal/app/app.go and internal/infra/database/postgres.go: the start of the process.
-- The routes are over the objects that `setupDependencies` builds on the connection.
pub mod Start
pub mod Migration
use Prim.Native.String.{◌++◌}
use go_auth_refresh_template.Base.{String, Option, some, none, List, [], ◌∷◌}
use go_auth_refresh_template.Domain.{Config, PostgresOptions}
use go_auth_refresh_template.Errors.{Error, wrap}
use go_auth_refresh_template.World.{Env, Outcome, ok, err, panics, wrap_outcome}
use go_auth_refresh_template.Web.Payload.{Codecs}
use go_auth_refresh_template.Web.Server.{Server, HttpServer, new_server, http_server}
use go_auth_refresh_template.Objects.Queries.{queries}
use go_auth_refresh_template.Objects.Dependencies.{setup_dependencies, setup_routes}
use go_auth_refresh_template.Configs.{System, new_config}

-- What the start asks of the outside: `sql.Open` and `Ping`, by the data source name, and
-- `ListenAndServe`.
pub record Host : Type 0 where
  pub open_database : String → Option Error
  pub ping : String → Option Error
  pub listen_and_serve : HttpServer → Option Error

-- The data source name of the driver.
abbrev pub data_source_name : PostgresOptions → String
data_source_name o =
    "host=" ++ o.host ++ " port=" ++ o.port ++ " dbname=" ++ o.name ++ " user=" ++ o.user
    ++ " password=" ++ o.password ++ " sslmode=disable"

-- What happens to the outside, in order. `log.Fatal` ends the process, without the deferred calls.
pub data Event : Type 0 where
  connected closed : String → Event
  served : HttpServer → Event
  fatal : Error → Event
  panicked : String → Event

-- `App`, with its connection as its data source name.
pub record App : Type 0 where
  pub server : Server
  pub database : String

module _ (host : Host) where
  abbrev pub pinged : String → Option Error → Outcome String
  pinged name none = ok name
  pinged name (some e) = err e

  abbrev pub opened : String → Option Error → Outcome String
  opened name none = pinged name (host.ping name)
  opened name (some e) = err e

  -- `NewPostgresConnection`
  unfoldable pub new_postgres_connection : PostgresOptions → Outcome String
  new_postgres_connection o = opened (data_source_name o) (host.open_database (data_source_name o))

-- `Close`
abbrev pub close : App → Event
close app = closed app.database

module _ (system : System) (host : Host) (env : Env) (codecs : Codecs)
    (template : String → Outcome String) (spec : String) where
  abbrev pub with_database : Config → Outcome String → Outcome App
  with_database config (ok name) = ok (record {
    server = record (new_server config.api) {
      mux = setup_routes codecs template spec (setup_dependencies env (queries env) config);
    };
    database = name;
  })
  with_database config (err e) = err e
  with_database config (panics s) = panics s

  -- `New` of app.go
  unfoldable pub new_app : Config → Outcome App
  unfolding new_postgres_connection
  new_app config =
      with_database config
        (wrap_outcome "starting postgres database" (new_postgres_connection host config.postgres))

  -- `Run`, and the end of `main` after it.
  abbrev pub after_run : App → Option Error → List Event
  after_run app (some e) = fatal e ∷ []
  after_run app none = close app ∷ []

  abbrev pub running : App → HttpServer → List Event
  running app s = connected app.database ∷ served s ∷ after_run app (host.listen_and_serve s)

  abbrev pub with_app : Config → Outcome App → List Event
  with_app config (ok app) = running app (http_server app.server config.api.url)
  with_app config (err e) = fatal e ∷ []
  with_app config (panics s) = panicked s ∷ []

  abbrev pub with_config : Outcome Config → List Event
  with_config (ok config) = with_app config (new_app config)
  with_config (err e) = fatal e ∷ []
  with_config (panics s) = panicked s ∷ []

  unfoldable pub main : List Event
  unfolding new_app
  main = with_config (new_config system)
