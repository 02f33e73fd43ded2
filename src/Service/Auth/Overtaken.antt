-- ===== src/Service/Auth/Overtaken.antt =====
-- Two overlapping calls of `ResetPassword` of internal/service/auth.go with one reset token.
use go_auth_refresh_template.Base.{◌+◌, String, none, ◌≡◌, arith, find, text_key}
use go_auth_refresh_template.Domain.{Config}
use go_auth_refresh_template.Database.Integrity.{IsValid}
use go_auth_refresh_template.Database.ResetTokens.{is_valid, consume_password_reset_token}
use go_auth_refresh_template.Database.ResetTokens.Unique.{find-update_used_any}
use go_auth_refresh_template.World.{Env, World, ok, err, next_draw}
use go_auth_refresh_template.Repository
use go_auth_refresh_template.Repository.Transaction.Overlap.{exec_around}
use go_auth_refresh_template.Service.Auth.{reset_password, apply_reset, bad_reset_token}
use go_auth_refresh_template.Service.Auth.Reset.{stored_hash, reset_password-ok}

module _ (env : Env) (config : Config) where
  -- A reset whose transaction began first and was overtaken by a successful reset with the same token
  -- is refused as unauthenticated and changes no table, whatever the clocks say: where the tables
  -- satisfy the constraints of the schema and the database has no fault.
  pub reset_password_overtaken :
      (reset_token password hashed : String) (w : World) {w' : World}
      → IsValid w.db
      → env.db_fault w.draws ≡ none
      → reset_password env config reset_token password (next_draw w) ≡ (ok tt, w')
      → env.db_fault w'.draws ≡ none
      → exec_around env
          (apply_reset env config (stored_hash env config reset_token) hashed)
          (λ v. (reset_password env config reset_token password v).1)
          w
        ≡ (err bad_reset_token, record w' { draws = w'.draws + 1 })
  unfolding exec_around apply_reset Repository.ResetToken.consume consume_password_reset_token
  reset_password_overtaken reset_token password hashed w {w'} valid f h f₂ =
      let (_, _, r) = reset_password-ok env config reset_token password (next_draw w) h in
      let dead : find (is_valid (env.db_now w.draws) (stored_hash env config reset_token))
            w'.db.password_reset_tokens
          ≡ none =
        rw (r.stored) (
          find-update_used_any _ _ (stored_hash env config reset_token) w.db.password_reset_tokens
            {t = r.token} valid.reset_tokens r.valid) in
      ground arith
