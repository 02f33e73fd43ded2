-- ===== src/Web/Guessing.antt =====
-- `VerifyPasswordResetCode` of internal/service/otp.go among the requests of internal/web/routes: the
-- limit on wrong guesses.
use go_auth_refresh_template.Base.{
  ℕ, ◌+◌, ◌≤◌, ◌≤ℤ◌, pos, String, none, ◌≡◌, ◌≢◌, ◌⊎◌, inl, inr, arith, any, false,
}
use go_auth_refresh_template.Domain.{Uuid, Config}
use go_auth_refresh_template.Database.Preserved.{Preserved-Unit}
use go_auth_refresh_template.Database.Otps.Attempts.{NonNegative, is_behind, Preserved-behind}
use go_auth_refresh_template.World.{Env, World, Outcome, err}
use go_auth_refresh_template.Repository.Integrity.{stored}
use go_auth_refresh_template.Service.Otp.{wrong_code, verify_password_reset_code}
use go_auth_refresh_template.Service.Otp.Attempts.{
  limit, IsClock, Guesses, CountsOn, LeavesCodes, guesses_limited,
}
use go_auth_refresh_template.Web.Payload.{Codecs}
use go_auth_refresh_template.Web.Server.{setup_routes}
use go_auth_refresh_template.Web.Mux.Served.{Served, Served-Since}
use go_auth_refresh_template.Web.Integrity.{routes-keep}

module _ (env : Env) (codecs : Codecs) (config : Config) (template : String → Outcome String)
    (spec : String) where
  -- Requests that the server handles one after the other, or something that leaves the codes alone.
  abbrev pub Meanwhile : World → World → Type 0
  Meanwhile w w' =
      Served (setup_routes env codecs config template spec) w w' ⊎ LeavesCodes env config w w'

  Served-later :
      {w w' : World}
      → Served (setup_routes env codecs config template spec) w w'
      → w.draws ≤ w'.draws
  Served-later {w} s =
      (Served-Since w.draws _
        (routes-keep env codecs config {start = w.draws}
          (Preserved-Unit (stored env config w.draws)) template spec)
        s (record { later = omega arith; holds = tt })).later

  Served-behind :
      (id : Uuid) (w₀ w w' : World) (k t : ℕ)
      → ((n : ℕ) → w₀.draws ≤ n → env.uuid_new n ≢ id)
      → w₀.draws ≤ w.draws
      → Served (setup_routes env codecs config template spec) w w'
      → any (is_behind id (limit env config) k t) w.db.otp ≡ false
      → any (is_behind id (limit env config) k t) w'.db.otp ≡ false
  Served-behind id w₀ w w' k t other le s h =
      let kept =
        Preserved-behind (stored env config w.draws) id (limit env config) k t
          (λ j (n, later, is) e. other n (omega (arith, le, later)) (ground arith)) in
      (Served-Since w.draws (λ db. any (is_behind id (limit env config) k t) db.otp ≡ false)
        (routes-keep env codecs config {start = w.draws} kept template spec) s
        (record { later = omega arith; holds = h })).holds

  Meanwhile-CountsOn :
      (id : Uuid) (w₀ : World)
      → ((n : ℕ) → w₀.draws ≤ n → env.uuid_new n ≢ id)
      → CountsOn env config Meanwhile id w₀
  Meanwhile-CountsOn id w₀ other = record {
    later = λ w w' step. elim step [ inl s ↦ Served-later s | inr (same, le) ↦ le ];
    kept = λ w w' k t step le h. elim step [
      | inl s ↦ Served-behind id w₀ w w' k t other le s h
      | inr (same, _) ↦ rw same h
    ];
  }

  -- Where the database server's clock does not go back, no attempt was counted below zero and `uuid.New`
  -- does not make the id of the challenge again: after as many wrong guesses at a challenge as the limit
  -- says, whatever requests the server handled before, between and after them, and whatever else
  -- happened that left the table of codes alone, every further code, the right one too, is refused as
  -- wrong where the database has no fault, and no table changes.
  pub attempts_limited_for_ever :
      (id : Uuid) (code : String) (w₀ w : World) (n : ℕ)
      → ((m : ℕ) → w₀.draws ≤ m → env.uuid_new m ≢ id)
      → IsClock env config
      → NonNegative w₀.db.otp
      → Guesses env config Meanwhile id w₀ n w
      → limit env config ≤ℤ pos n
      → w.tx_now ≡ none
      → env.db_fault w.draws ≡ none
      → env.db_fault (w.draws + 1) ≡ none
      → ((verify_password_reset_code env config code id w).0 ≡ err wrong_code)
        × ((verify_password_reset_code env config code id w).1.db ≡ w.db)
  attempts_limited_for_ever id code w₀ w n other clock =
      guesses_limited env config Meanwhile id w₀ (Meanwhile-CountsOn id w₀ other) clock code w n
