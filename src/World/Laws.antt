-- ===== src/World/Laws.antt =====
-- How a chain of calls that succeeds is taken apart, and what one statement does.
use go_auth_refresh_template.Base.{String, ◌≡◌, refl, ◌⊎◌, inl, inr, arith}
use go_auth_refresh_template.Domain.{Time}
use go_auth_refresh_template.Errors.{Error, wrap}
use go_auth_refresh_template.Database.{Database, Reply, done}
use go_auth_refresh_template.World.{
  Env, World, Outcome, ok, err, panics, Action, ◌>>=◌, wrap_error, query, sql_now, next_draw,
}

-- `P` holds unless the call returned a value.
abbrev pub UnlessOk {ℓ} : {A : Type 0} → Outcome A → Type ℓ → Type ℓ
UnlessOk (ok a) P = Unit
UnlessOk (err e) P = P
UnlessOk (panics s) P = P

-- A call ended in a value, an error or a panic.
pub outcome-cases :
    {A : Type 0} (r : Outcome A)
    → ((a : A) × (r ≡ ok a)) ⊎ ((e : Error) × (r ≡ err e)) ⊎ ((s : String) × (r ≡ panics s))
outcome-cases (ok a) = inl (a, refl)
outcome-cases (err e) = inr (inl (e, refl))
outcome-cases (panics s) = inr (inr (s, refl))

module _ {A B : Type 0} where
  -- A chain that returns a value: so did its first call, and the rest.
  pub >>=-ok :
      (m : Action A) (f : A → Action B) (w : World) {b : B} {w' : World}
      → (m >>= f) w ≡ (ok b, w')
      → (a : A) × (w₁ : World) × (m w ≡ (ok a, w₁)) × (f a w₁ ≡ (ok b, w'))
  >>=-ok m f w h = elim (outcome-cases (m w).0) [
    | inl (a, e) ↦ (a, (m w).1, ground arith, ground arith)
    | inr (inl (a, e)) ↦ ground arith
    | inr (inr (a, e)) ↦ ground arith
  ]

  -- A chain that returns an error: its first call did, or the rest.
  pub >>=-err :
      (m : Action A) (f : A → Action B) (w : World) {e : Error} {w' : World}
      → (m >>= f) w ≡ (err e, w')
      → (m w ≡ (err e, w')) ⊎ ((a : A) × (w₁ : World) × (m w ≡ (ok a, w₁)) × (f a w₁ ≡ (err e, w')))
  >>=-err m f w h = elim (outcome-cases (m w).0) [
    | inl (a, e) ↦ inr (a, (m w).1, ground arith, ground arith)
    | inr (inl (a, e)) ↦ inl (ground arith)
    | inr (inr (a, e)) ↦ ground arith
  ]

pub wrap_error-ok :
    {A : Type 0} (text : String) (m : Action A) (w : World) {a : A} {w' : World}
    → wrap_error text m w ≡ (ok a, w')
    → m w ≡ (ok a, w')
wrap_error-ok text m w h = ground arith

-- The error of a call with a context is a wrapped one.
pub wrap_error-err :
    {A : Type 0} (text : String) (m : Action A) (w : World) {e : Error} {w' : World}
    → wrap_error text m w ≡ (err e, w')
    → (cause : Error) × (e ≡ wrap text cause) × (m w ≡ (err cause, w'))
wrap_error-err text m w h = elim (outcome-cases (m w).0) [
  | inl (a, e) ↦ ground arith
  | inr (inl (cause, e)) ↦ (cause, ground arith, ground arith)
  | inr (inr (s, e)) ↦ ground arith
]

-- A statement that returned a value met no fault, and answered so.
pub query-ok :
    {A : Type 0} (env : Env) (statement : Time → Database → Reply A) (w : World) {a : A}
    {w' : World}
    → query env statement w ≡ (ok a, w')
    → (statement (sql_now env w) w.db ≡ done a w'.db) × (w' ≡ record (next_draw w) { db = w'.db })
query-ok env statement w h = ground arith
