-- ===== src/Web/LoggedOut/Ended.antt =====
-- What `Refresh` of internal/service/refresh_token.go and `ResetPassword` of auth.go leave to the
-- requests after them.
use go_auth_refresh_template.Base.{
  ℕ, ◌+◌, ◌≤◌, String, none, some, ◌≡◌, ◌≢◌, arith, find, ==_self, id_key,
}
use go_auth_refresh_template.Domain.{Uuid, Time, Config}
use go_auth_refresh_template.Database.{PasswordResetToken}
use go_auth_refresh_template.Database.ResetTokens.{is_valid}
use go_auth_refresh_template.Database.RefreshTokens.Sessions.{session, DistinctIds}
use go_auth_refresh_template.Database.RefreshTokens.Dead.{
  IsDead, AllDead-session, session-AllDead, consumed-AllDead, session_before,
}
use go_auth_refresh_template.World.{Env, World, Outcome, ok}
use go_auth_refresh_template.Service
use go_auth_refresh_template.Service.RefreshToken.Laws.{refresh-ok}
use go_auth_refresh_template.Service.Auth.Reset.{stored_hash, reset_password_effect}
use go_auth_refresh_template.Service.Auth.LoggedOut.{IsRefused, session-IsRefused}
use go_auth_refresh_template.Web.Payload.{Codecs}
use go_auth_refresh_template.Web.Server.{setup_routes}
use go_auth_refresh_template.Web.Mux.Served.{Served}
use go_auth_refresh_template.Web.LoggedOut.{Served-IsDead}

module _ (env : Env) (codecs : Codecs) (config : Config) (template : String → Outcome String)
    (spec : String) where
  -- A dead token after some requests: it has no session, and is refused.
  Served-IsRefused :
      (text : String) (id : Uuid) (limit t : Time) {w w₂ : World}
      → ((n : ℕ) → w.draws ≤ n → env.uuid_new n ≢ id)
      → Served (setup_routes env codecs config template spec) w w₂
      → IsDead limit id w.db
      → env.uuid_parse text ≡ some id
      → limit ≤ t
      → limit ≤ env.db_now w₂.draws
      → env.db_fault w₂.draws ≡ none
      → env.db_fault (w₂.draws + 1) ≡ none
      → (session t w₂.db.refresh_tokens id ≡ none) × IsRefused env config text w₂
  Served-IsRefused text id limit t {w} {w₂} other s dead parsed le later f₀ f₁ =
      let still_dead = Served-IsDead env codecs config template spec id limit other s dead in
      let without = λ (t : Time). AllDead-session limit t id w₂.db.refresh_tokens in
      (
        without t le still_dead,
        session-IsRefused env config text id w₂ parsed
            (without (env.db_now w₂.draws) later still_dead) f₀ f₁,
      )

  -- After a refresh that succeeds, whatever requests the server handles one
  -- after the other, and at any time of the database server that is no earlier, the token that was given
  -- has no session; and a refresh with it is refused as unauthenticated and changes no table, where the
  -- database has no fault and `uuid.New` does not make its id again from then on.
  pub refreshed_once_for_ever :
      (text : String) (id : Uuid) (w w₂ : World) (t : Time) {access new : String} {w' : World}
      → env.uuid_parse text ≡ some id
      → Service.RefreshToken.refresh env config text w ≡ (ok (access, new), w')
      → ((n : ℕ) → w'.draws ≤ n → env.uuid_new n ≢ id)
      → Served (setup_routes env codecs config template spec) w' w₂
      → env.db_now w.draws ≤ t
      → env.db_now w.draws ≤ env.db_now w₂.draws
      → env.db_fault w₂.draws ≡ none
      → env.db_fault (w₂.draws + 1) ≡ none
      → (session t w₂.db.refresh_tokens id ≡ none) × IsRefused env config text w₂
  refreshed_once_for_ever text id w w₂ t {access} {new} {w'} parsed h other s le later f₀ f₁ =
      let now = env.db_now w.draws in
      let (j, names, r) = refresh-ok env config text w {access = access} {new = new} {w' = w'} h in
      let same : j ≡ id = ground arith in
      let dead : IsDead now id w'.db =
        ground (arith, r.stored, r.new_id, consumed-AllDead now j w.db.refresh_tokens) in
      Served-IsRefused text id now t other s dead parsed le later f₀ f₁

  -- After a password reset that succeeds, whatever requests the server
  -- handles one after the other, a refresh token that was a session of the user whose reset token was
  -- given has no session at any time; and a refresh with it is refused as unauthenticated and changes no
  -- table, where no two refresh tokens had the same id, the database has no fault and `uuid.New` does not
  -- make this id again from then on.
  pub reset_logs_out_for_ever :
      (reset_token password text : String) (id : Uuid) (w w₂ : World) (t live_at : Time)
      {token : PasswordResetToken} {w' : World}
      → DistinctIds w.db.refresh_tokens
      → Service.Auth.reset_password env config reset_token password w ≡ (ok tt, w')
      → find
          (is_valid (env.db_now (w.draws + 1)) (stored_hash env config reset_token))
          w.db.password_reset_tokens
        ≡ some token
      → env.uuid_parse text ≡ some id
      → session live_at w.db.refresh_tokens id ≡ some token.user_id
      → ((n : ℕ) → w'.draws ≤ n → env.uuid_new n ≢ id)
      → Served (setup_routes env codecs config template spec) w' w₂
      → env.db_fault w₂.draws ≡ none
      → env.db_fault (w₂.draws + 1) ≡ none
      → (session t w₂.db.refresh_tokens id ≡ none) × IsRefused env config text w₂
  reset_logs_out_for_ever reset_token password text id w w₂ t live_at {token} {w'} distinct h given
        parsed live other s f₀ f₁ =
      let (u, hashed, valid, made, users, ended, used, codes) =
        reset_password_effect env config reset_token password w 0 id {w' = w'} distinct h in
      let is : u ≡ token = ground arith in
      let before =
        session_before live_at 0 id token.user_id w.db.refresh_tokens distinct (omega arith) live in
      let dead : session 0 w'.db.refresh_tokens id ≡ none = ground (arith, ==_self token.user_id) in
      Served-IsRefused text id 0 t other s (session-AllDead 0 id w'.db.refresh_tokens dead) parsed
        (omega arith) (omega arith) f₀ f₁
