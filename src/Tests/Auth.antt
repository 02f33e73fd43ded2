-- ===== src/Tests/Auth.antt =====
-- The password reset and the login on the fixture.
use go_auth_refresh_template.Database.Integrity.{IsValid}
use go_auth_refresh_template.Base.{
  ◌+◌, String, some, none, [], ◌∷◌, ◌≡◌, refl, arith, ◌==◌, id_key, text_key, find, update,
}
use go_auth_refresh_template.Errors.{wrap}
use go_auth_refresh_template.Database.{PasswordResetToken}
use go_auth_refresh_template.Database.Users.{set_password, update_user_password}
use go_auth_refresh_template.Database.RefreshTokens.{delete_refresh_tokens_by_user_id}
use go_auth_refresh_template.Database.RefreshTokens.Sessions.{session, without_user}
use go_auth_refresh_template.Database.ResetTokens.{
  is_valid, mark_used, consume_password_reset_token,
}
use go_auth_refresh_template.World.{World, ok, err}
use go_auth_refresh_template.World.Laws.{UnlessOk}
use go_auth_refresh_template.Secure.{hash_password, hash_reset_token}
use go_auth_refresh_template.Secure.Format.{encode_to_string}
use go_auth_refresh_template.Repository
use go_auth_refresh_template.Repository.Transaction.{exec}
use go_auth_refresh_template.Service.Auth.{reset_password, apply_reset, bad_reset_token}
use go_auth_refresh_template.Service.Auth.Reset.{
  reset_password_effect, reset_password_atomic, reset_password_once, stored_hash,
}
use go_auth_refresh_template.Base.{ℕ, ◌≡◌, ==_self, any, false, true, String}
use go_auth_refresh_template.Domain.{User}
use go_auth_refresh_template.World.{next_draw}
use go_auth_refresh_template.Database.Users.{clashes, save_user}
use go_auth_refresh_template.Service.Auth.{register_user, login, issue_tokens}
use go_auth_refresh_template.Service.Auth.Register.{registered, registered_user_logs_in}
use go_auth_refresh_template.Service.Auth.Overtaken.{reset_password_overtaken}
use go_auth_refresh_template.Repository.Transaction.Overlap.{exec_around}
use go_auth_refresh_template.Service.Auth.LoggedOut.{IsRefused}
use go_auth_refresh_template.Web.LoggedOut.Ended.{reset_logs_out_for_ever}
use go_auth_refresh_template.Tests.Web.{codecs, logged_in_after, then_logs_in}
use go_auth_refresh_template.Tests.Fixture.{parse-id_text, env, config, db, start}

-- The bytes of the fixture's HMAC of "to" are 116 and 111.
abbrev reset_row : PasswordResetToken
reset_row = record {
  id = 5;
  user_id = 1;
  token_hash = "746f";
  expires_at = 1500;
  used_at = none;
  created_at = 900;
}

abbrev with_reset : World
with_reset = record start { db = record db { password_reset_tokens = reset_row ∷ [] } }

run_reset : Unit {0}
unfolding reset_password exec apply_reset hash_password hash_reset_token encode_to_string
    Repository.ResetToken.consume consume_password_reset_token Repository.User.update_password
    update_user_password Repository.RefreshToken.delete_by_user_id delete_refresh_tokens_by_user_id
run_reset = tt

abbrev after_reset : World
after_reset = (reset_password env config "to" "new" with_reset).1

resets : (reset_password env config "to" "new" with_reset).0 ≡ ok tt
unfolding run_reset
resets = refl

reset_password_effect_example :
    (token : PasswordResetToken) × (hashed : String) × (find
        (is_valid 1001 (stored_hash env config "to"))
        (reset_row ∷ [])
      ≡ some token)
    × (env.bcrypt_generate 0 "new" ≡ ok hashed)
    × (after_reset.db.users ≡ update (λ u. u.id == token.user_id) (set_password hashed) db.users)
    × (session 2000 after_reset.db.refresh_tokens 7
        ≡ without_user token.user_id (session 2000 db.refresh_tokens 7))
    × (after_reset.db.password_reset_tokens
        ≡ update (is_valid 1001 (stored_hash env config "to")) (mark_used 1001) (reset_row ∷ []))
    × (after_reset.db.otp ≡ [])
unfolding run_reset
reset_password_effect_example =
    reset_password_effect env config "to" "new" with_reset 2000 7 {w' = after_reset} (tt, tt) refl

reset_password_atomic_example :
    UnlessOk
      (reset_password env config "no" "new" with_reset).0
      ((reset_password env config "no" "new" with_reset).1.db ≡ with_reset.db)
reset_password_atomic_example = reset_password_atomic env config "no" "new" with_reset

reset_password_once_example :
    ((reset_password env config "to" "again" after_reset).0
      ≡ err (wrap "running reset password transaction" bad_reset_token))
    × ((reset_password env config "to" "again" after_reset).1.db ≡ after_reset.db)
unfolding run_reset
reset_password_once_example =
    reset_password_once env config "to" "new" "again" with_reset after_reset {w' = after_reset}
      {hashed = "$again"} refl refl (omega arith) refl refl refl

abbrev cy : User
cy = record { id = 0; email = "cy@x"; password = "pw"; username = "cy" }

-- The fixture's bcrypt accepts what it has hashed.
fixture_bcrypt :
    (n : ℕ) (password hashed : String)
    → env.bcrypt_generate n password ≡ ok hashed
    → env.bcrypt_compare hashed password ≡ true
fixture_bcrypt n password hashed h = ground (arith, ==_self (String.◌∷◌ "$" password))

run_register : Unit {0}
unfolding register_user hash_password Repository.User.save save_user
run_register = tt

abbrev after_register : World
after_register = (register_user env config cy start).1

registered_user_logs_in_example :
    (hashed : String) × (any (clashes (registered env config cy hashed start)) db.users ≡ false)
    × (after_register.db ≡ record db { users = registered env config cy hashed start ∷ db.users })
    × (login env config "cy@x" "pw" after_register
        ≡ issue_tokens env config 20 (next_draw after_register))
unfolding run_register
registered_user_logs_in_example =
    registered_user_logs_in env config cy start after_register {w' = after_register} fixture_bcrypt
      refl refl refl

abbrev reset_first : World → World
reset_first w = (reset_password env config "to" "new" w).1

with_reset-IsValid : IsValid with_reset.db
with_reset-IsValid = record {
  users = (refl, (refl, tt));
  refresh_tokens = (refl, tt);
  refresh_users = refl;
  reset_tokens = (refl, tt);
  reset_users = refl;
  otp = tt;
}

reset_password_overtaken_example :
    exec_around env
      (apply_reset env config (stored_hash env config "to") "$other")
      reset_first
      with_reset
    ≡ (
      err bad_reset_token,
      record (reset_first (next_draw with_reset)) {
        draws = (reset_first (next_draw with_reset)).draws + 1;
      },
    )
unfolding run_reset
reset_password_overtaken_example =
    reset_password_overtaken env config "to" "new" "$other" with_reset
      {w' = reset_first (next_draw with_reset)} with_reset-IsValid refl refl refl

abbrev after_login : World
after_login = logged_in_after (next_draw after_reset)

reset_logs_out_for_ever_example :
    (session 2000 after_login.db.refresh_tokens 7 ≡ none)
    × IsRefused env config "u0000000" after_login
unfolding run_reset
reset_logs_out_for_ever_example =
    reset_logs_out_for_ever env codecs config (λ page. ok page) "openapi" "to" "new" "u0000000" 7
      with_reset after_login 2000 3000 {token = reset_row} {w' = after_reset} (tt, tt) refl refl
      (parse-id_text 7) refl (λ n later same. omega arith) (then_logs_in after_reset) refl refl
