-- ===== src/Service/Auth/LoggedOut.antt =====
-- Refreshes after `Revoke` of internal/service/refresh_token.go and `ResetPassword` of auth.go.
use go_auth_refresh_template.Base.{
  ◌+◌, String, none, some, ◌≡◌, inl, inr, arith, Option-cases, find, text_key, id_key, ==_self,
}
use go_auth_refresh_template.Domain.{Uuid, Config}
use go_auth_refresh_template.Database.{PasswordResetToken}
use go_auth_refresh_template.Database.RefreshTokens.{is_live}
use go_auth_refresh_template.Database.RefreshTokens.Sessions.{session, session-find, DistinctIds}
use go_auth_refresh_template.Database.ResetTokens.{is_valid}
use go_auth_refresh_template.World.{Env, World, ok, err}
use go_auth_refresh_template.Service.RefreshToken.{refresh, revoke, token_not_found}
use go_auth_refresh_template.Service.RefreshToken.Rotation.{
  refresh-not_found, refresh_atomic, revoke_ends,
}
use go_auth_refresh_template.Service.Auth.{reset_password}
use go_auth_refresh_template.Service.Auth.Reset.{stored_hash, reset_password_effect}

module _ (env : Env) (config : Config) where
  -- A refresh that is refused as unauthenticated, and changes no table.
  abbrev pub IsRefused : String → World → Type 0
  IsRefused text w =
      ((refresh env config text w).0 ≡ err token_not_found)
      × ((refresh env config text w).1.db ≡ w.db)

  -- A refresh with a token that has no session is refused.
  pub session-IsRefused :
      (text : String) (id : Uuid) (w : World)
      → env.uuid_parse text ≡ some id
      → session (env.db_now w.draws) w.db.refresh_tokens id ≡ none
      → env.db_fault w.draws ≡ none
      → env.db_fault (w.draws + 1) ≡ none
      → IsRefused text w
  session-IsRefused text id w parsed dead f₀ f₁ =
      elim (Option-cases (find (is_live (env.db_now w.draws) id) w.db.refresh_tokens)) [
        | inl x ↦
            let refused = refresh-not_found env config text id w parsed x f₀ f₁ in
            (refused, ground (arith, refresh_atomic env config text w))
        | inr (t, x) ↦
            let live = session-find (env.db_now w.draws) id w.db.refresh_tokens {t = t} x in
            ground arith
      ]

  -- After a Revoke that succeeds, a refresh with the same text, on the tables that it left and where the
  -- database has no fault, is refused as unauthenticated and changes no table, whatever the clock says.
  pub revoke-IsRefused :
      (text : String) (w w₂ : World) {w' : World}
      → revoke env config text w ≡ (ok tt, w')
      → w₂.db ≡ w'.db
      → env.db_fault w₂.draws ≡ none
      → env.db_fault (w₂.draws + 1) ≡ none
      → IsRefused text w₂
  revoke-IsRefused text w w₂ {w'} h same f₀ f₁ = elim (Option-cases (env.uuid_parse text)) [
    | inl x ↦
        let (id, parsed, ended, rest) = revoke_ends env config text w 0 0 {w' = w'} h in
        ground arith
    | inr (id, x) ↦
        let (id', parsed, ended, rest) =
          revoke_ends env config text w (env.db_now w₂.draws) id {w' = w'} h in
        let is : id' ≡ id = ground arith in
        session-IsRefused text id w₂ x (ground (arith, ==_self id)) f₀ f₁
  ]

  -- After a password reset that succeeds, whoever had a session of the user is logged out: where no two
  -- refresh tokens have the same id, a refresh with a token of the user whose reset token was given, on
  -- the tables that the reset left and where the database has no fault, is refused as unauthenticated
  -- and changes no table.
  pub reset_password-IsRefused :
      (reset_token password text : String) (id : Uuid) (w w₂ : World) {token : PasswordResetToken}
      {w' : World}
      → DistinctIds w.db.refresh_tokens
      → reset_password env config reset_token password w ≡ (ok tt, w')
      → find
          (is_valid (env.db_now (w.draws + 1)) (stored_hash env config reset_token))
          w.db.password_reset_tokens
        ≡ some token
      → env.uuid_parse text ≡ some id
      → session (env.db_now w₂.draws) w.db.refresh_tokens id ≡ some token.user_id
      → w₂.db ≡ w'.db
      → env.db_fault w₂.draws ≡ none
      → env.db_fault (w₂.draws + 1) ≡ none
      → IsRefused text w₂
  reset_password-IsRefused reset_token password text id w w₂ {token} {w'} distinct h given parsed
        live same f₀ f₁ =
      let (t, hashed, valid, made, users, ended, used, codes) =
        reset_password_effect env config reset_token password w (env.db_now w₂.draws) id {w' = w'}
          distinct h in
      let is : t ≡ token = ground arith in
      session-IsRefused text id w₂ parsed (ground (arith, ==_self token.user_id)) f₀ f₁
