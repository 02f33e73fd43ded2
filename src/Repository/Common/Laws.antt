-- ===== src/Repository/Common/Laws.antt =====
-- What a repository call over one statement that succeeds has done.
use go_auth_refresh_template.Base.{String, Option, none, some, ◌≡◌, arith}
use go_auth_refresh_template.Domain.{Time}
use go_auth_refresh_template.Database.{Database, Reply, done}
use go_auth_refresh_template.World.{Env, World, ok, query, sql_now, next_draw}
use go_auth_refresh_template.Repository.Common.{optional}

-- The world after a statement that left the tables `db`.
abbrev pub stepped : World → Database → World
stepped w db = record (next_draw w) { db = db }

module _ {A : Type 0} (env : Env) (statement : Time → Database → Reply A) (w : World) where
  -- A row was found, or nothing has changed.
  abbrev pub Found : Option A → World → Type 0
  Found none w' = w' ≡ next_draw w
  Found (some a) w' = (statement (sql_now env w) w.db ≡ done a w'.db) × (w' ≡ stepped w w'.db)

  pub optional-query-ok :
      (text : String) (found : Option A) {w' : World}
      → optional text (query env statement) w ≡ (ok found, w')
      → Found found w'
  optional-query-ok text none h = ground arith
  optional-query-ok text (some a) h = ground arith
