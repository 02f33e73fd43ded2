-- ===== src/Repository/Transaction/Laws.antt =====
-- Transactions are atomic.
use go_auth_refresh_template.Base.{some, ◌≡◌, arith}
use go_auth_refresh_template.World.{Env, World, ok, Action, next_draw}
use go_auth_refresh_template.World.Laws.{UnlessOk}
use go_auth_refresh_template.Repository.Transaction.{exec}

-- The world in which the function of a transaction starts.
abbrev pub begun : Env → World → World
begun env w = record w { draws = (next_draw w).draws; tx_now = some (env.db_now w.draws) }

-- A transaction that does not return a value leaves the tables as before it.
pub exec_atomic :
    {A : Type 0} (env : Env) (fn : Action A) (w : World)
    → UnlessOk (exec env fn w).0 ((exec env fn w).1.db ≡ w.db)
unfolding exec
exec_atomic env fn w = ground arith

-- A transaction that returns a value has run its function to that value, and keeps its tables.
pub exec-ok :
    {A : Type 0} (env : Env) (fn : Action A) (w : World) {a : A} {w' : World}
    → exec env fn w ≡ (ok a, w')
    → (w₁ : World) × (fn (begun env w) ≡ (ok a, w₁))
      × (w'.db ≡ w₁.db)
      × (w'.outbox ≡ w₁.outbox)
      × (w'.tx_now ≡ w.tx_now)
unfolding exec
exec-ok env fn w h = ((fn (begun env w)).1, ground arith, ground arith, ground arith, ground arith)
