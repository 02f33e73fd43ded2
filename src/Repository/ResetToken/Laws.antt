-- ===== src/Repository/ResetToken/Laws.antt =====
-- What a consumption of a reset token that succeeds has done.
use go_auth_refresh_template.Base.{String, Option, none, some, ◌≡◌, arith, find, update}
use go_auth_refresh_template.Domain
use go_auth_refresh_template.Domain.{Time}
use go_auth_refresh_template.Database.{PasswordResetToken}
use go_auth_refresh_template.Database.ResetTokens.{
  is_valid, mark_used, consume_password_reset_token,
}
use go_auth_refresh_template.Database.ResetTokens.Laws.{consume_password_reset_token-done}
use go_auth_refresh_template.World.{Env, World, ok, pure, sql_now, query}
use go_auth_refresh_template.World.Laws.{>>=-ok}
use go_auth_refresh_template.Repository.Common.{optional}
use go_auth_refresh_template.Repository.Common.Laws.{stepped, Found, optional-query-ok}
use go_auth_refresh_template.Repository.ResetToken.{from_rows, from_row, consume}

module _ (env : Env) (w : World) where
  -- The row that was found, as the domain's token, and the tables with the row marked as used.
  abbrev pub Consumed : String → Domain.ResetToken → World → Type 0
  Consumed hash token w' =
      (row : PasswordResetToken) × (find (is_valid (sql_now env w) hash) w.db.password_reset_tokens
        ≡ some row)
      × (token ≡ from_row (mark_used (sql_now env w) row))
      × (w'
          ≡ stepped w (record (w.db) {
            password_reset_tokens =
                update (is_valid (sql_now env w) hash) (mark_used (sql_now env w))
                  w.db.password_reset_tokens;
          }))

  row_taken :
      (hash : String) (found : Option PasswordResetToken) (token : Domain.ResetToken) {w' : World}
      → Found env (λ now. consume_password_reset_token now hash) w found w'
      → from_rows found ≡ some token
      → Consumed hash token w'
  row_taken hash none token h e = ground arith
  row_taken hash (some row) token h e =
      let (t, live, used, changed) =
        consume_password_reset_token-done (sql_now env w) hash w.db h.0 in
      (t, live, ground arith, ground arith)

  pub consume-ok :
      (hash : String) (token : Domain.ResetToken) {w' : World}
      → consume env hash w ≡ (ok (some token), w')
      → Consumed hash token w'
  unfolding consume
  consume-ok hash token {w'} h =
      let statement = λ (now : Time). consume_password_reset_token now hash in
      let text : String = "consuming password reset token" in
      let (found, w₁, ran, rest) =
        >>=-ok (optional text (query env statement)) (λ o. pure (from_rows o)) w h in
      let same_world : w₁ ≡ w' = ground arith in
      rw same_world at (
        row_taken hash found token (optional-query-ok env statement w text found ran)
          (ground arith))
