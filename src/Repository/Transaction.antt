-- ===== src/Repository/Transaction.antt =====
-- `unitOfWork.Exec` of internal/repository/transaction.go. The repositories that `fn` receives are
-- those of the other files, run on the transaction's view of the tables.
pub mod Overlap
pub mod Integrity
pub mod Laws
use go_auth_refresh_template.Base.{none, some}
use go_auth_refresh_template.Errors.{wrap}
use go_auth_refresh_template.World.{Env, World, Outcome, ok, err, panics, Action, next_draw}

-- `tx.Rollback()`: the tables are again those at the start.
abbrev pub rollback : World → World → World
rollback start w = record w { db = start.db; tx_now = start.tx_now }

-- `tx.Commit()`, which can fail; then nothing is stored.
unfoldable pub commit : {A : Type 0} → Env → World → A → Action A
commit env start a w = elim (env.db_fault w.draws) [
  | some e ↦ (err (wrap "commit transaction" e), rollback start (next_draw w))
  | none ↦ (ok a, record w { draws = (next_draw w).draws; tx_now = start.tx_now })
]

-- The end of the transaction: a commit after a nil error, the deferred rollback otherwise.
unfoldable pub finish : {A : Type 0} → Env → World → Outcome A × World → Outcome A × World
unfolding commit
finish env start (ok a, w) = commit env start a w
finish env start (err e, w) = (err e, rollback start w)
finish env start (panics s, w) = (panics s, rollback start w)

unfoldable pub exec : {A : Type 0} → Env → Action A → Action A
unfolding finish
exec env fn w = elim (env.db_fault w.draws) [
  | some e ↦ (err (wrap "beginning transaction" e), next_draw w)
  | none ↦
      finish env w
        (fn (record w { draws = (next_draw w).draws; tx_now = some (env.db_now w.draws) }))
]
