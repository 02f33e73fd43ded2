-- ===== src/App/Migration.antt =====
-- internal/infra/database/migration/main.go, the process that migrates the database.
use go_auth_refresh_template.Base.{String, Option, some, none}
use go_auth_refresh_template.Domain.{Config}
use go_auth_refresh_template.Errors.{Error}
use go_auth_refresh_template.World.{Outcome, ok, err, panics}
use go_auth_refresh_template.Configs.{System, new_config}
use go_auth_refresh_template.App.{Host, new_postgres_connection}

-- github.com/pressly/goose/v3: `SetDialect`, and `Up` by the data source name and the directory.
pub record Goose : Type 0 where
  pub set_dialect : String → Option Error
  pub up : String → String → Option Error

-- How the process ends: as it should, by `log.Fatal`, or by a panic.
pub data Exit : Type 0 where
  done : Exit
  fatal : Error → Exit
  panicked : String → Exit

abbrev pub fatal_or : Option Error → Exit → Exit
fatal_or (some e) next = fatal e
fatal_or none next = next

module _ (system : System) (host : Host) (goose : Goose) where
  -- What is done on a connection.
  abbrev pub migrated_by : String → Exit
  migrated_by name =
      fatal_or (goose.set_dialect "postgres")
        (fatal_or (goose.up name "internal/infra/database/schema") done)

  abbrev pub at_connection : Outcome String → Exit
  at_connection (ok name) = migrated_by name
  at_connection (err e) = fatal e
  at_connection (panics s) = panicked s

  abbrev pub with_config : Outcome Config → Exit
  with_config (ok cfg) = at_connection (new_postgres_connection host cfg.postgres)
  with_config (err e) = fatal e
  with_config (panics s) = panicked s

  unfoldable pub main : Exit
  main = with_config (new_config system)
