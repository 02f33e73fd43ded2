-- ===== src/App/Start.antt =====
-- What the process of main.go serves.
use Prim.Native.String.{◌++◌}
use go_auth_refresh_template.Base.{
  String, Option, none, some, ◌≡◌, ap, ◌∙◌, arith, All, inl, inr, Option-cases,
}
use go_auth_refresh_template.Domain.{Config}
use go_auth_refresh_template.Errors.{Error}
use go_auth_refresh_template.World.{Env, Outcome, ok}
use go_auth_refresh_template.World.Laws.{outcome-cases}
use go_auth_refresh_template.Web.Payload.{Codecs}
use go_auth_refresh_template.Web.Server.{HttpServer, http_server, new_server, setup_routes}
use go_auth_refresh_template.Objects.Queries.{queries}
use go_auth_refresh_template.Objects.Dependencies
use go_auth_refresh_template.Objects.Dependencies.{setup_dependencies}
use go_auth_refresh_template.Objects.Agreement.{dependencies_agree}
use go_auth_refresh_template.Configs.{System, new_config}
use go_auth_refresh_template.Configs.Url.{ChoosesPort, new_config_lem}
use go_auth_refresh_template.App.{
  Host, Event, connected, closed, served, fatal, panicked, App, data_source_name, new_app,
  new_postgres_connection, after_run, running, main, with_app,
}

module _ (system : System) (host : Host) (env : Env) (codecs : Codecs)
    (template : String → Outcome String) (spec : String) where
  -- The settings with which the server runs: those that were loaded, but for the port and the URL.
  pub record IsConfigured (s : HttpServer) : Type 0 where
    pub loaded : Config
    pub port : String
    pub unmarshals : system.unmarshal ≡ ok loaded
    pub chosen : ChoosesPort system loaded port
    pub addr : s.addr ≡ loaded.api.host ++ ":" ++ port
    pub handler :
        s.handler
        ≡ setup_routes env codecs
            (record loaded { api = record (loaded.api) { port = port; url = s.addr } })
            template
            spec
    pub read_header_timeout : s.read_header_timeout ≡ loaded.api.read_header_timeout
    pub read_timeout : s.read_timeout ≡ loaded.api.read_timeout
    pub write_timeout : s.write_timeout ≡ loaded.api.write_timeout
    pub idle_timeout : s.idle_timeout ≡ loaded.api.idle_timeout
    pub answers : host.ping (data_source_name loaded.postgres) ≡ none

  abbrev pub IsProper : Event → Type 0
  IsProper (served s) = IsConfigured s
  IsProper (closed name) = Unit
  IsProper (connected name) = Unit
  IsProper (fatal e) = Unit
  IsProper (panicked s) = Unit

  after_run-IsProper :
      (app : App) (o : Option Error)
      → All IsProper (after_run system host env codecs template spec app o)
  after_run-IsProper app none = (tt, tt)
  after_run-IsProper app (some e) = (tt, tt)

  running-IsProper :
      (c : Config)
      → new_config system ≡ ok c
      → host.ping (data_source_name c.postgres) ≡ none
      → (app : App)
      → (app.server ≡ record (new_server c.api) { mux = setup_routes env codecs c template spec })
      → All IsProper
          (running system host env codecs template spec app (http_server app.server c.api.url))
  running-IsProper c e answered app is =
      let (loaded, read, unmarshals, same, url, chosen) = new_config_lem system {c = c} e in
      (
        tt,
        (
          record {
            loaded = loaded;
            port = c.api.port;
            unmarshals = unmarshals;
            chosen = chosen;
            addr = url;
            handler = ap (λ x. x.mux) is ∙ ap (λ x. setup_routes env codecs x template spec) same;
            read_header_timeout = ground arith;
            read_timeout = ground arith;
            write_timeout = ground arith;
            idle_timeout = ground arith;
            answers = rw same at answered;
          },
          after_run-IsProper app _,
        ),
      )

  -- What `New` makes of the settings once the database has answered.
  abbrev app_of : Config → App
  app_of c = record {
    server = record (new_server c.api) {
      mux = Dependencies.setup_routes codecs template spec (setup_dependencies env (queries env) c);
    };
    database = data_source_name c.postgres;
  }

  with_app-IsProper :
      (c : Config)
      → new_config system ≡ ok c
      → All IsProper (
          with_app system host env codecs template spec c
            (new_app system host env codecs template spec c))
  unfolding new_app new_postgres_connection
  with_app-IsProper c e = elim (Option-cases (host.open_database (data_source_name c.postgres))) [
    | inr (x, y) ↦ rw y (tt, tt)
    | inl x ↦ elim (Option-cases (host.ping (data_source_name c.postgres))) [
      | inr (y, z) ↦ rw (x, z) (tt, tt)
      | inl y ↦
          rw (x, y)
            (running-IsProper c e y (app_of c) (
              ap (λ mux. record (new_server c.api) { mux = mux })
                (dependencies_agree env codecs c template spec)))
    ]
  ]

  -- Whenever the process serves, it does so on the host that was loaded and the port that was chosen for
  -- it, with the routes of these settings and the timeouts that were loaded, and the database that was
  -- loaded has answered a ping.
  pub main_serves : All IsProper (main system host env codecs template spec)
  unfolding main
  main_serves = elim (outcome-cases (new_config system)) [
    | inl (c, e) ↦ rw e (with_app-IsProper c e)
    | inr (inl (x, e)) ↦ rw e (tt, tt)
    | inr (inr (x, e)) ↦ rw e (tt, tt)
  ]
