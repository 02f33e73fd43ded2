-- ===== src/Repository/Transaction/Integrity.antt =====
-- What a transaction keeps of the tables.
use mathlib.Core.Path.{subst}
use go_auth_refresh_template.Base.{ℕ, ◌≤◌, refl, ◌≡◌, sym, ◌⊎◌, inl, inr, arith, Option-cases}
use go_auth_refresh_template.Database.{Database}
use go_auth_refresh_template.World.{Env, World, Action}
use go_auth_refresh_template.World.Laws.{outcome-cases}
use go_auth_refresh_template.World.Invariants.{Keeps, Since, still}
use go_auth_refresh_template.Repository.Transaction.{exec}
use go_auth_refresh_template.Repository.Transaction.Laws.{begun}

-- After a transaction the tables are those of its function, or those before it.
exec-tables :
    {A : Type 0} (env : Env) (fn : Action A) (w : World)
    → ((exec env fn w).1.db ≡ (fn (begun env w)).1.db) ⊎ ((exec env fn w).1.db ≡ w.db)
unfolding exec
exec-tables env fn w = elim (Option-cases (env.db_fault w.draws)) [
  | inr (x, f) ↦ inr (ground arith)
  | inl f ↦ elim (outcome-cases (fn (begun env w)).0) [
    | inl (a, e) ↦ elim (Option-cases (env.db_fault (fn (begun env w)).1.draws)) [
      | inl g ↦ inl (ground arith)
      | inr (x, g) ↦ inr (ground arith)
    ]
    | inr (inl (x, e)) ↦ inr (ground arith)
    | inr (inr (x, e)) ↦ inr (ground arith)
  ]
]

-- It draws no less than its function, or no less than before it.
exec-draws :
    {A : Type 0} (env : Env) (fn : Action A) (w : World)
    → ((fn (begun env w)).1.draws ≤ (exec env fn w).1.draws) ⊎ (w.draws ≤ (exec env fn w).1.draws)
unfolding exec
exec-draws env fn w = elim (Option-cases (env.db_fault w.draws)) [
  | inr (x, f) ↦ inr (ground arith)
  | inl f ↦ elim (outcome-cases (fn (begun env w)).0) [
    | inl (a, e) ↦ elim (Option-cases (env.db_fault (fn (begun env w)).1.draws)) [
      | inl g ↦ inl (ground arith)
      | inr (x, g) ↦ inl (ground arith)
    ]
    | inr (inl (x, e)) ↦ inl (ground arith)
    | inr (inr (x, e)) ↦ inl (ground arith)
  ]
]

pub Keeps-exec :
    {A : Type 0} {start : ℕ} {P : Database → Type 0} (env : Env) (fn : Action A)
    → Keeps (Since start P) fn
    → Keeps (Since start P) (exec env fn)
Keeps-exec {P = P} env fn k = record {
  kept = λ w s.
      let inside = k.kept (begun env w) (still w _ refl (omega arith) s) in
      record {
        later = elim (exec-draws env fn w) [
          | inl d ↦ omega (arith, inside.later)
          | inr d ↦ omega (arith, s.later)
        ];
        holds = elim (exec-tables env fn w) [
          | inl e ↦ subst P (sym e) inside.holds
          | inr e ↦ subst P (sym e) s.holds
        ];
      };
}
