-- ===== src/Service/Auth/Reset.antt =====
-- `ResetPassword` of internal/service/auth.go.
use go_auth_refresh_template.Base.{
  ◌+◌, ◌≤◌, String, Option, none, some, ◌≡◌, refl, inl, inr, arith, ◌==◌, id_key, text_key, find,
  update, delete,
}
use go_auth_refresh_template.Domain
use go_auth_refresh_template.Domain.{Uuid, Time, Config}
use go_auth_refresh_template.Errors.{wrap}
use go_auth_refresh_template.Database.{Database, PasswordResetToken}
use go_auth_refresh_template.Database.Users.{set_password}
use go_auth_refresh_template.Database.ResetTokens.{
  is_valid, mark_used, consume_password_reset_token,
}
use go_auth_refresh_template.Database.ResetTokens.Laws.{find-update_used}
use go_auth_refresh_template.Database.RefreshTokens.Sessions.{
  session, session-delete_user, without_user, DistinctIds,
}
use go_auth_refresh_template.World.{Env, World, ok, err, sql_now, wrap_error, next_draw}
use go_auth_refresh_template.World.Laws.{>>=-ok, wrap_error-ok, UnlessOk, outcome-cases}
use go_auth_refresh_template.Secure.{hash_password, hash_reset_token}
use go_auth_refresh_template.Repository
use go_auth_refresh_template.Repository.ResetToken.Laws.{consume-ok}
use go_auth_refresh_template.Repository.User.Laws.{update_password-ok}
use go_auth_refresh_template.Repository.RefreshToken.Laws.{delete_by_user_id-ok}
use go_auth_refresh_template.Repository.Transaction.{exec}
use go_auth_refresh_template.Repository.Transaction.Laws.{begun, exec-ok, exec_atomic}
use go_auth_refresh_template.Service.Auth.{reset_for, apply_reset, reset_password, bad_reset_token}

module _ (env : Env) (config : Config) where
  reset_for-ok :
      (hashed : String) (found : Option Domain.ResetToken) (w : World) {w' : World}
      → reset_for env config hashed found w ≡ (ok tt, w')
      → (token : Domain.ResetToken) × (found ≡ some token)
        × (w'.db ≡ record (w.db) {
          users = update (λ u. u.id == token.user_id) (set_password hashed) w.db.users;
          refresh_tokens = delete (λ t. t.user_id == token.user_id) w.db.refresh_tokens;
        })
  reset_for-ok hashed none w h = ground arith
  reset_for-ok hashed (some token) w {w'} h =
      let store = Repository.User.update_password env token.user_id hashed in
      let revoke = Repository.RefreshToken.delete_by_user_id env token.user_id in
      let (done, w₁, ran, rest) =
        >>=-ok (wrap_error "updating user password" store)
          (λ _. wrap_error "revoking user tokens" revoke) w h in
      let stored =
        update_password-ok env w {w' = w₁} token.user_id hashed (wrap_error-ok _ store w ran) in
      let revoked = delete_by_user_id-ok env w₁ token.user_id (wrap_error-ok _ revoke w₁ rest) in
      (token, refl, ground arith)

  -- What a reset at the time `now` does to the tables.
  pub record Resets (now : Time) (hash hashed : String) (db db' : Database) : Type 0 where
    pub token : PasswordResetToken
    pub valid : find (is_valid now hash) db.password_reset_tokens ≡ some token
    pub stored : db' ≡ record db {
      users = update (λ u. u.id == token.user_id) (set_password hashed) db.users;
      refresh_tokens = delete (λ t. t.user_id == token.user_id) db.refresh_tokens;
      password_reset_tokens = update (is_valid now hash) (mark_used now) db.password_reset_tokens;
    }

  apply_reset-ok :
      (hash hashed : String) (w : World) {w' : World}
      → apply_reset env config hash hashed w ≡ (ok tt, w')
      → Resets (sql_now env w) hash hashed w.db w'.db
  unfolding apply_reset
  apply_reset-ok hash hashed w {w'} h =
      let consume = Repository.ResetToken.consume env hash in
      let (found, w₁, ran, rest) =
        >>=-ok (wrap_error "consuming reset token" consume) (reset_for env config hashed) w h in
      let (token, is, changed) = reset_for-ok hashed found w₁ rest in
      let taken = wrap_error-ok "consuming reset token" consume w ran in
      let (row, valid, same, marked) = consume-ok env w hash token {w' = w₁} (rw is at taken) in
      record { token = row; valid = valid; stored = ground arith }

  -- The hash under which the reset token is stored.
  abbrev pub stored_hash : String → String
  stored_hash reset_token = hash_reset_token env reset_token config.reset_token.secret

  pub reset_password-ok :
      (reset_token password : String) (w : World) {w' : World}
      → reset_password env config reset_token password w ≡ (ok tt, w')
      → (hashed : String) × (env.bcrypt_generate w.draws password ≡ ok hashed)
        × Resets (env.db_now (w.draws + 1)) (stored_hash reset_token) hashed w.db w'.db
  unfolding reset_password hash_password
  reset_password-ok reset_token password w {w'} h =
      elim (outcome-cases (env.bcrypt_generate w.draws password)) [
        | inl (hashed, e) ↦
            let fn = apply_reset env config (stored_hash reset_token) hashed in
            let (w₁, ran, committed, _, _) =
              exec-ok env fn (next_draw w) {a = tt} {w' = w'} (ground arith) in
            (hashed, e, rw committed (apply_reset-ok _ hashed (begun env (next_draw w)) ran))
        | inr (inl (x, e)) ↦ ground arith
        | inr (inr (x, e)) ↦ ground arith
      ]

  -- A password reset that succeeds was given a reset token whose hash is stored, unused and not
  -- expired, and bcrypt has hashed the password. Only the token's user gets the new hash; at any time
  -- `t` that user has no session, and the others have theirs; and the token is marked as used.
  pub reset_password_effect :
      (reset_token password : String) (w : World) (t : Time) (j : Uuid) {w' : World}
      → DistinctIds w.db.refresh_tokens
      → reset_password env config reset_token password w ≡ (ok tt, w')
      → (token : PasswordResetToken) × (hashed : String) × (find
            (is_valid (env.db_now (w.draws + 1)) (stored_hash reset_token))
            w.db.password_reset_tokens
          ≡ some token)
        × (env.bcrypt_generate w.draws password ≡ ok hashed)
        × (w'.db.users ≡ update (λ u. u.id == token.user_id) (set_password hashed) w.db.users)
        × (session t w'.db.refresh_tokens j
            ≡ without_user token.user_id (session t w.db.refresh_tokens j))
        × (w'.db.password_reset_tokens
            ≡ update
                (is_valid (env.db_now (w.draws + 1)) (stored_hash reset_token))
                (mark_used (env.db_now (w.draws + 1)))
                w.db.password_reset_tokens)
        × (w'.db.otp ≡ w.db.otp)
  reset_password_effect reset_token password w t j distinct h =
      let (hashed, made, r) = reset_password-ok reset_token password w h in
      (
        r.token,
        hashed,
        r.valid,
        made,
        ground (arith, r.stored),
        ground
            (arith, r.stored, session-delete_user t r.token.user_id j w.db.refresh_tokens distinct),
        ground (arith, r.stored),
        ground (arith, r.stored),
      )

  -- A password reset that does not succeed changes no table, whichever step of it failed.
  pub reset_password_atomic :
      (reset_token password : String) (w : World)
      → UnlessOk
          (reset_password env config reset_token password w).0
          ((reset_password env config reset_token password w).1.db ≡ w.db)
  unfolding reset_password hash_password
  reset_password_atomic reset_token password w =
      elim (outcome-cases (env.bcrypt_generate w.draws password)) [
        | inl (hashed, e) ↦ ground (
          arith,
          exec_atomic env (apply_reset env config (stored_hash reset_token) hashed) (next_draw w),
        )
        | inr (inl (x, e)) ↦ ground arith
        | inr (inr (x, e)) ↦ ground arith
      ]

  refused_reset :
      (reset_token password : String) (w : World) {hashed : String}
      → find
          (is_valid (env.db_now (w.draws + 1)) (stored_hash reset_token))
          w.db.password_reset_tokens
        ≡ none
      → env.bcrypt_generate w.draws password ≡ ok hashed
      → env.db_fault (w.draws + 1) ≡ none
      → env.db_fault (w.draws + 1 + 1) ≡ none
      → (reset_password env config reset_token password w).0
        ≡ err (wrap "running reset password transaction" bad_reset_token)
  unfolding reset_password hash_password exec apply_reset Repository.ResetToken.consume
      consume_password_reset_token
  refused_reset reset_token password w dead made f₀ f₁ = ground arith

  -- A reset token serves once: after a reset that succeeds, a reset with the same token and any
  -- password that bcrypt hashes, on the tables that the first one left, at no earlier time of the
  -- database server and with no fault of it, is refused as unauthenticated and changes no table.
  pub reset_password_once :
      (reset_token password password₂ : String) (w w₂ : World) {w' : World} {hashed : String}
      → reset_password env config reset_token password w ≡ (ok tt, w')
      → w₂.db ≡ w'.db
      → env.db_now (w.draws + 1) ≤ env.db_now (w₂.draws + 1)
      → env.bcrypt_generate w₂.draws password₂ ≡ ok hashed
      → env.db_fault (w₂.draws + 1) ≡ none
      → env.db_fault (w₂.draws + 1 + 1) ≡ none
      → ((reset_password env config reset_token password₂ w₂).0
          ≡ err (wrap "running reset password transaction" bad_reset_token))
        × ((reset_password env config reset_token password₂ w₂).1.db ≡ w₂.db)
  reset_password_once reset_token password password₂ w w₂ h same later made f₀ f₁ =
      let (_, _, r) = reset_password-ok reset_token password w h in
      let dead : find (is_valid (env.db_now (w₂.draws + 1)) (stored_hash reset_token))
            w₂.db.password_reset_tokens
          ≡ none =
        rw (same, r.stored)
          (find-update_used _ _ (stored_hash reset_token) w.db.password_reset_tokens later) in
      let refused = refused_reset reset_token password₂ w₂ dead made f₀ f₁ in
      (refused, ground (arith, reset_password_atomic reset_token password₂ w₂))
