-- ===== src/World/Invariants.antt =====
-- What an operation keeps of the tables, built up as the operation is.
use mathlib.Core.Path.{subst}
use go_auth_refresh_template.Base.{
  Option, none, some, Bool, true, false, if◌then◌else◌, String, ◌≡◌, ◌≤◌, ℕ, refl, inl, inr, arith,
  Option-cases, ◌⊎◌,
}
use go_auth_refresh_template.Domain.{Time}
use go_auth_refresh_template.Errors.{Error}
use go_auth_refresh_template.Database.{Database, Reply, done, refused}
use go_auth_refresh_template.Database.Preserved.{Answers}
use go_auth_refresh_template.World.{
  Env, World, Outcome, Action, ◌>>=◌, wrap_error, query, sql_now, pure, raise, draw, try_draw,
  from_outcome, ◌>>◌,
}
use go_auth_refresh_template.World.Laws.{outcome-cases}

pub reply-cases :
    {A : Type 0} (r : Reply A)
    → ((a : A) × (db : Database) × (r ≡ done a db)) ⊎ ((e : Error) × (r ≡ refused e))
reply-cases (done a db) = inl (a, db, refl)
reply-cases (refused e) = inr (e, refl)

-- Whatever the operation ends with, the world has the property afterwards.
pub record Keeps (Q : World → Type 0) {A : Type 0} (m : Action A) : Type 0 where
  pub kept : (w : World) → Q w → Q (m w).1

-- The world is at the draw `start` or later, and its tables have the property.
pub record Since (start : ℕ) (P : Database → Type 0) (w : World) : Type 0 where
  pub later : start ≤ w.draws
  pub holds : P w.db

module _ {start : ℕ} {P : Database → Type 0} where
  -- Later, on the same tables.
  pub still :
      (w w' : World) → w.db ≡ w'.db → w.draws ≤ w'.draws → Since start P w → Since start P w'
  still w w' same d s = record { later = omega (arith, s.later); holds = subst P same s.holds }

  pub Keeps-draw : {A : Type 0} (f : ℕ → A) → Keeps (Since start P) (draw f)
  Keeps-draw f = record { kept = λ w. still w _ refl (omega arith) }

  pub Keeps-try_draw : {A : Type 0} (f : ℕ → Outcome A) → Keeps (Since start P) (try_draw f)
  Keeps-try_draw f = record { kept = λ w. still w _ refl (omega arith) }

  pub Keeps-query :
      {A : Type 0} (env : Env) (statement : Time → Database → Reply A)
      → ((now : Time) (db : Database) → P db → Answers P (statement now db))
      → Keeps (Since start P) (query env statement)
  Keeps-query env statement h = record {
    kept = λ w s.
        let on = query env statement w in
        let later : w.draws ≤ on.1.draws = elim (Option-cases (env.db_fault w.draws)) [
          | inl f ↦ elim (reply-cases (statement (sql_now env w) w.db)) [
            | inl (a, db, e) ↦ ground arith
            | inr (x, e) ↦ ground arith
          ]
          | inr (x, f) ↦ ground arith
        ] in
        record {
          later = omega (arith, s.later);
          holds = elim (reply-cases (statement (sql_now env w) w.db)) [
            | inl (a, db, e) ↦ elim (Option-cases (env.db_fault w.draws)) [
              | inl f ↦
                  let is : db ≡ on.1.db = ground arith in
                  subst P is (h (sql_now env w) w.db s.holds a db e)
              | inr (x, f) ↦ let is : w.db ≡ on.1.db = ground arith in subst P is s.holds
            ]
            | inr (x, e) ↦ let is : w.db ≡ on.1.db = ground arith in subst P is s.holds
          ];
        };
  }

module _ {Q : World → Type 0} where
  pub Keeps-pure : {A : Type 0} (a : A) → Keeps Q (pure a)
  Keeps-pure a = record { kept = λ w q. q }

  pub Keeps-raise : {A : Type 0} (e : Error) → Keeps Q {A = A} (raise e)
  Keeps-raise e = record { kept = λ w q. q }

  pub Keeps-from_outcome : {A : Type 0} (r : Outcome A) → Keeps Q (from_outcome r)
  Keeps-from_outcome r = record { kept = λ w q. q }

  pub Keeps-wrap_error :
      {A : Type 0} (text : String) (m : Action A) → Keeps Q m → Keeps Q (wrap_error text m)
  Keeps-wrap_error text m k = record { kept = k.kept }

  pub Keeps->>= :
      {A B : Type 0} (m : Action A) (f : A → Action B)
      → Keeps Q m
      → ((a : A) → Keeps Q (f a))
      → Keeps Q (m >>= f)
  Keeps->>= m f k h = record {
    kept = λ w q. elim (outcome-cases (m w).0) [
      | inl (a, e) ↦
          let is : (f a (m w).1).1 ≡ ((m >>= f) w).1 = ground arith in
          subst Q is ((h a).kept (m w).1 (k.kept w q))
      | inr (inl (x, e)) ↦
          let is : (m w).1 ≡ ((m >>= f) w).1 = ground arith in subst Q is (k.kept w q)
      | inr (inr (x, e)) ↦
          let is : (m w).1 ≡ ((m >>= f) w).1 = ground arith in subst Q is (k.kept w q)
    ];
  }

  pub Keeps->> :
      {A B : Type 0} (m : Action A) (k : Action B) → Keeps Q m → Keeps Q k → Keeps Q (m >> k)
  Keeps->> m k h₁ h₂ = Keeps->>= m (λ _. k) h₁ (λ _. h₂)

  pub Keeps-if :
      {A : Type 0} (c : Bool) (m k : Action A)
      → Keeps Q m
      → Keeps Q k
      → Keeps Q (if c then m else k)
  Keeps-if true m k h₁ h₂ = h₁
  Keeps-if false m k h₁ h₂ = h₂

  pub Keeps-maybe :
      {A B : Type 0} (o : Option B) (m : Action A) (f : B → Action A)
      → Keeps Q m
      → ((b : B) → Keeps Q (f b))
      → Keeps Q (elim o [ none ↦ m | some b ↦ f b ])
  Keeps-maybe none m f h₁ h₂ = h₁
  Keeps-maybe (some b) m f h₁ h₂ = h₂ b

pub ruleset keeping = (
  Keeps-pure, Keeps-raise, Keeps-draw, Keeps-try_draw, Keeps-from_outcome, Keeps-wrap_error,
  Keeps->>=, Keeps->>, Keeps-if, Keeps-maybe,
)
