-- ===== src/Repository/Transaction/Overlap.antt =====
-- Two calls of `unitOfWork.Exec` of internal/repository/transaction.go that overlap.
use go_auth_refresh_template.Base.{none, some, ◌≡◌, inl, inr, arith, Option-cases}
use go_auth_refresh_template.Errors.{wrap}
use go_auth_refresh_template.World.{Env, World, err, Action, next_draw}
use go_auth_refresh_template.Repository.Transaction.{finish, exec}

-- `Exec` where `other` runs and commits after `tx` has begun and before its first statement. NOW()
-- is the start of `tx`; its statements read what has been committed since (READ COMMITTED).
unfoldable pub exec_around : {A : Type 0} → Env → Action A → (World → World) → Action A
unfolding finish
exec_around env fn other w = elim (env.db_fault w.draws) [
  | some e ↦ (err (wrap "beginning transaction" e), next_draw w)
  | none ↦
      let w₁ = other (next_draw w) in
      finish env w₁ (fn (record w₁ { tx_now = some (env.db_now w.draws) }))
]

-- Where nothing comes between, it is `Exec`.
exec_around_alone :
    {A : Type 0} (env : Env) (fn : Action A) (w : World)
    → exec_around env fn (λ v. v) w ≡ exec env fn w
unfolding exec_around exec
exec_around_alone env fn w = elim (Option-cases (env.db_fault w.draws)) [
  | inl x ↦ ground arith
  | inr (e, x) ↦ ground arith
]
