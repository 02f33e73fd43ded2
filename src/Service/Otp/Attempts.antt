-- ===== src/Service/Otp/Attempts.antt =====
-- `VerifyPasswordResetCode` of internal/service/otp.go: the limit on wrong guesses.
use go_auth_refresh_template.Base.{
  ℕ, zero, suc, ◌+◌, ◌≤◌, ℤ, pos, ◌≤ℤ◌, int16, String, Option, none, some, ◌≡◌, ◌≢◌, ap, inl, inr,
  arith, update, any, false,
}
use go_auth_refresh_template.Domain
use go_auth_refresh_template.Domain.{Uuid, Time, Config}
use go_auth_refresh_template.Database.Otps.{
  may_attempt, attempt, consume_otp_code_by_challenge_id, increase_otp_attempts,
}
use go_auth_refresh_template.Database.Otps.Attempts.{
  NonNegative, is_behind, behind_zero, behind_later, behind_update, behind_limit,
  behind_limit_overflows, behind_limit_update,
}
use go_auth_refresh_template.World.{Env, World, err, sql_now, wrap_error, next_draw}
use go_auth_refresh_template.World.Laws.{>>=-err, wrap_error-err, wrap_error-ok}
use go_auth_refresh_template.Secure.{hash_otp}
use go_auth_refresh_template.Repository
use go_auth_refresh_template.Repository.Otp.Laws.{
  consume_by_challenge_id-none, increase_attempts-ok,
}
use go_auth_refresh_template.Repository.Common.Laws.{stepped}
use go_auth_refresh_template.Service.Otp.{
  wrong_code, grant_reset_token, after_consume, verify_password_reset_code,
}

module _ (env : Env) (config : Config) where
  -- The limit as the repository passes it on.
  abbrev pub limit : ℤ
  limit = int16 config.otp.max_attempts

  after_consume-some :
      (id : Uuid) (otp : Domain.Otp) (w : World)
      → (after_consume env config id (some otp) w).0 ≢ err wrong_code
  unfolding after_consume grant_reset_token
  after_consume-some id otp w = ground arith

  -- The branch where no code was found: an attempt is counted.
  after_consume-none :
      (id : Uuid) (found : Option Domain.Otp) (w : World) {w' : World}
      → after_consume env config id found w ≡ (err wrong_code, w')
      → (found ≡ none)
        × (w'
            ≡ stepped w (record (w.db) {
              otp = update (may_attempt (sql_now env w) id limit) attempt w.db.otp;
            }))
  unfolding after_consume
  after_consume-none id none w {w'} h =
      let increase = Repository.Otp.increase_attempts env config.otp id in
      ground (arith, increase_attempts-ok env config.otp w {w' = (increase w).1} id)
  after_consume-none id (some otp) w h = absurd (after_consume-some id otp w (ap (λ r. r.0) h))

  -- A wrong guess counts one attempt for the open row of the challenge, and nothing else.
  wrong_guess :
      (code : String) (id : Uuid) (w : World) {w' : World}
      → verify_password_reset_code env config code id w ≡ (err wrong_code, w')
      → w'
        ≡ stepped (next_draw w) (record (w.db) {
          otp = update (may_attempt (sql_now env (next_draw w)) id limit) attempt w.db.otp;
        })
  unfolding verify_password_reset_code
  wrong_guess code id w {w'} h =
      let hash = hash_otp env code config.otp.secret in
      let consume = Repository.Otp.consume_by_challenge_id env config.otp id hash in
      let text : String = "consuming otp code" in
      elim (>>=-err (wrap_error text consume) (after_consume env config id) w h) [
        | inl failed ↦ let (cause, e, _) = wrap_error-err text consume w failed in ground arith
        | inr (found, w₁, ran, rest) ↦
            let (missing, counted) = after_consume-none id found w₁ rest in
            let same_world =
              consume_by_challenge_id-none env config.otp w {w' = w₁} id hash
                (rw missing at (wrap_error-ok text consume w ran)) in
            ground arith
      ]

  -- The clock of the database server does not go back.
  abbrev pub IsClock : Type 0
  IsClock = (m n : ℕ) → m ≤ n → env.db_now m ≤ env.db_now n

  -- `n` wrong guesses at the challenge from `w₀` on, with anything of `Other` between them.
  pub data Guesses (Other : World → World → Type 0) (id : Uuid) (w₀ : World)
      : ℕ → World → Type 0 where
    start : Guesses Other id w₀ zero w₀
    guess :
        {n : ℕ} {w w' : World} (code : String)
        → Guesses Other id w₀ n w
        → w.tx_now ≡ none
        → verify_password_reset_code env config code id w ≡ (err wrong_code, w')
        → Guesses Other id w₀ (suc n) w'
    other : {n : ℕ} {w w' : World} → Guesses Other id w₀ n w → Other w w' → Guesses Other id w₀ n w'

  -- What the limit needs of the steps of `Other` that come after `w₀`.
  pub record CountsOn (Other : World → World → Type 0) (id : Uuid) (w₀ : World) : Type 0 where
    pub later : (w w' : World) → Other w w' → w.draws ≤ w'.draws
    pub kept :
        (w w' : World) (k : ℕ) (t : Time)
        → Other w w'
        → w₀.draws ≤ w.draws
        → any (is_behind id limit k t) w.db.otp ≡ false
        → any (is_behind id limit k t) w'.db.otp ≡ false

  module _ (Other : World → World → Type 0) (id : Uuid) (w₀ : World) (c : CountsOn Other id w₀)
      (clock : IsClock) where
    -- After `n` wrong guesses every open row of the challenge has at least `n` attempts.
    guesses_behind :
        {n : ℕ} {w : World}
        → NonNegative w₀.db.otp
        → Guesses Other id w₀ n w
        → (w₀.draws ≤ w.draws) × (any (is_behind id limit n (env.db_now w.draws)) w.db.otp ≡ false)
    guesses_behind h start = (omega arith, behind_zero id limit _ w₀.db.otp h)
    guesses_behind h (guess {n} {w} {w'} code g tx wrong) =
        let (le, before) = guesses_behind h g in
        let t : Time = env.db_now (w.draws + 1) in
        let later =
          behind_later id limit n _ t w.db.otp (clock w.draws (w.draws + 1) (omega arith)) before in
        let after = behind_update id limit n t w.db.otp later in
        let changed = wrong_guess code id w wrong in
        rw changed (
          omega (arith, le),
          behind_later id limit (suc n) t _ _ (clock (w.draws + 1) (w.draws + 1 + 1) (omega arith))
              (rw tx after),
        )
    guesses_behind h (other {n} {w} {w'} g step) =
        let (le, before) = guesses_behind h g in
        let on = c.later w w' step in
        (
          omega (arith, le, on),
          behind_later id limit n _ _ w'.db.otp (clock w.draws w'.draws on)
              (c.kept w w' n _ step le before),
        )

    -- After as many wrong guesses as the limit says, every further code is refused as wrong.
    pub guesses_limited :
        (code : String) (w : World) (n : ℕ)
        → NonNegative w₀.db.otp
        → Guesses Other id w₀ n w
        → limit ≤ℤ pos n
        → w.tx_now ≡ none
        → env.db_fault w.draws ≡ none
        → env.db_fault (w.draws + 1) ≡ none
        → ((verify_password_reset_code env config code id w).0 ≡ err wrong_code)
          × ((verify_password_reset_code env config code id w).1.db ≡ w.db)
    unfolding verify_password_reset_code after_consume Repository.Otp.consume_by_challenge_id
        consume_otp_code_by_challenge_id Repository.Otp.increase_attempts increase_otp_attempts
    guesses_limited code w n h g le tx f₀ f₁ =
        let hash = hash_otp env code config.otp.secret in
        let (_, now) = guesses_behind h g in
        let t : Time = env.db_now (w.draws + 1) in
        let later =
          behind_later id limit n _ t w.db.otp (clock w.draws (w.draws + 1) (omega arith)) now in
        ground (
          arith,
          behind_limit id hash limit n (env.db_now w.draws) w.db.otp le now,
          behind_limit_overflows id limit n t w.db.otp le later,
          behind_limit_update id limit n t w.db.otp le later,
        )

  -- Something that leaves the table of codes alone.
  abbrev pub LeavesCodes : World → World → Type 0
  LeavesCodes w w' = (w'.db.otp ≡ w.db.otp) × (w.draws ≤ w'.draws)

  -- Where the database server's clock does not go back and no attempt was counted below zero: after
  -- as many wrong guesses at a challenge as the limit says, whatever else happened that left the
  -- table of codes alone, every further code, the right one too, is refused as wrong where the
  -- database has no fault, and no table changes.
  pub attempts_limited :
      (id : Uuid) (code : String) (w₀ w : World) (n : ℕ)
      → IsClock
      → NonNegative w₀.db.otp
      → Guesses LeavesCodes id w₀ n w
      → limit ≤ℤ pos n
      → w.tx_now ≡ none
      → env.db_fault w.draws ≡ none
      → env.db_fault (w.draws + 1) ≡ none
      → ((verify_password_reset_code env config code id w).0 ≡ err wrong_code)
        × ((verify_password_reset_code env config code id w).1.db ≡ w.db)
  attempts_limited id code w₀ w n clock =
      guesses_limited LeavesCodes id w₀
        (record { later = λ w w' (same, le). le; kept = λ w w' k t (same, le) _ h. rw same h })
        clock code w n
