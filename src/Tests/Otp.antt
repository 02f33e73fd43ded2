-- ===== src/Tests/Otp.antt =====
-- The one-time codes on the fixture.
use go_auth_refresh_template.Base.{
  ℕ, String, [], ◌∷◌, ◌≡◌, refl, arith, ◌==◌, text_key, pos, delete, int16,
}
use go_auth_refresh_template.Database.{OtpRow}
use go_auth_refresh_template.Database.Users
use go_auth_refresh_template.Database.Otps.{
  consume_otp_code_by_challenge_id, increase_otp_attempts, save_otp_code,
  invalidate_otp_codes_by_identifier, consume_otp_code,
}
use go_auth_refresh_template.World.{World, ok, err, next_draw}
use go_auth_refresh_template.Secure.{hash_otp}
use go_auth_refresh_template.Secure.Format.{encode_to_string, sprintf_06d}
use go_auth_refresh_template.Repository
use go_auth_refresh_template.Repository.Transaction.{exec}
use go_auth_refresh_template.Service.Otp.{
  wrong_code, verify_password_reset_code, after_consume, send_code, send_code_to, mail_code,
  store_code, new_otp, replace_code, send_mail, random_code, verify_login_code,
}
use go_auth_refresh_template.Service.Otp.Attempts.{Guesses}
use go_auth_refresh_template.Web.Guessing.{Meanwhile, attempts_limited_for_ever}
use go_auth_refresh_template.Tests.Session.{run_handlers}
use go_auth_refresh_template.Tests.Web.{codecs, logged_in_after, then_logs_in}
use go_auth_refresh_template.Service.Otp.Send.{send_code_unknown, sent_code_serves}
use go_auth_refresh_template.Base.{inl, some, update, find, id_key}
use go_auth_refresh_template.Domain.{User}
use go_auth_refresh_template.Database.Users.{set_password}
use go_auth_refresh_template.Database.Otps.{is_reset_code}
use go_auth_refresh_template.Database.ResetTokens.{save_password_reset_token}
use go_auth_refresh_template.Secure.{generate_reset_token}
use go_auth_refresh_template.Service.Otp.{grant_reset_token}
use go_auth_refresh_template.Service.Auth.{reset_password}
use go_auth_refresh_template.Service.Auth.Recovery.{verified_code_resets}
use go_auth_refresh_template.Tests.Fixture.{env, config, db, start}

-- The fixture's HMAC of "1" is the byte 49.
abbrev otp_row : OtpRow
otp_row = record {
  id = 9;
  identifier = "ann@x";
  code_hash = "31";
  attempts = pos 0;
  expires_at = 5000;
  created_at = 900;
}

abbrev challenged : World
challenged = record start { db = record db { otp = otp_row ∷ [] } }

run_verify : Unit {0}
unfolding verify_password_reset_code after_consume Repository.Otp.consume_by_challenge_id
    consume_otp_code_by_challenge_id Repository.Otp.increase_attempts increase_otp_attempts hash_otp
    encode_to_string int16
run_verify = tt

abbrev guessed : World → World
guessed w = (verify_password_reset_code env config "2" 9 w).1

abbrev logged_in : World
logged_in = logged_in_after (next_draw (guessed challenged))

abbrev guessed_out : World
guessed_out = guessed (guessed logged_in)

-- One wrong guess, then a login, then two more.
three_guesses :
    Guesses env config
      (Meanwhile env codecs config (λ page. ok page) "openapi")
      9
      challenged
      3
      guessed_out
unfolding run_verify run_handlers
three_guesses =
    Guesses.guess "2"
      (Guesses.guess "2"
        (Guesses.other (Guesses.guess "2" Guesses.start refl refl)
          (inl (then_logs_in (guessed challenged))))
        refl refl)
      refl refl

attempts_limited_for_ever_example :
    ((verify_password_reset_code env config "1" 9 guessed_out).0 ≡ err wrong_code)
    × ((verify_password_reset_code env config "1" 9 guessed_out).1.db ≡ guessed_out.db)
unfolding run_verify run_handlers
attempts_limited_for_ever_example =
    attempts_limited_for_ever env codecs config (λ page. ok page) "openapi" 9 "1" challenged
      guessed_out 3 (λ m le same. omega arith) (λ m n le. omega arith) (omega arith, tt)
      three_guesses (omega arith) refl refl refl

send_code_unknown_example :
    ((send_code env config "no@x" start).0 ≡ ok 20)
    × ((send_code env config "no@x" start).1.db ≡ db)
    × ((send_code env config "no@x" start).1.outbox ≡ [])
send_code_unknown_example = send_code_unknown env config "no@x" start refl refl

run_send : Unit {0}
unfolding send_code send_code_to mail_code store_code new_otp replace_code send_mail random_code
    exec Repository.User.get_by_email Users.get_by_email Repository.Otp.save save_otp_code
    Repository.Otp.invalidate_by_identifier invalidate_otp_codes_by_identifier int16
    verify_login_code Repository.Otp.consume consume_otp_code hash_otp encode_to_string sprintf_06d
run_send = tt

abbrev sent : World
sent = (send_code env config "ann@x" challenged).1

sends : (send_code env config "ann@x" challenged).0 ≡ ok 20
unfolding run_send
sends = refl

sent_code_serves_example :
    (n : ℕ) × (html : String) × (env.otp_template (sprintf_06d n) ≡ ok html)
    × (sent.outbox
        ≡ record { from = "from@x"; to = "ann@x" ∷ []; subject = "OTP code"; html = html } ∷ [])
    × ((verify_login_code env config (sprintf_06d n) "ann@x" sent).0 ≡ ok tt)
    × ((verify_login_code env config (sprintf_06d n) "ann@x" sent).1.db
        ≡ record (challenged.db) { otp = delete (λ o. o.identifier == "ann@x") challenged.db.otp })
unfolding run_send
sent_code_serves_example =
    sent_code_serves env config "ann@x" challenged sent {c = 20} {w' = sent} refl refl refl refl
      (omega arith) refl

run_grant : Unit {0}
unfolding run_verify Repository.User.get_by_email Users.get_by_email grant_reset_token
    generate_reset_token Repository.ResetToken.save save_password_reset_token
run_grant = tt

abbrev verified : World
verified = (verify_password_reset_code env config "1" 9 challenged).1

verifies : (verify_password_reset_code env config "1" 9 challenged).0 ≡ ok "token"
unfolding run_grant
verifies = refl

abbrev recovered : World
recovered = (reset_password env config "token" "new" verified).1

verified_code_resets_example :
    (otp : OtpRow) × (user : User) × (find
        (is_reset_code 1000 9 (hash_otp env "1" "otp") (int16 (pos 3)))
        (otp_row ∷ [])
      ≡ some otp)
    × (find (λ u. u.email == otp.identifier) db.users ≡ some user)
    × ((reset_password env config "token" "new" verified).0 ≡ ok tt)
    × (recovered.db.users ≡ update (λ u. u.id == user.id) (set_password "$new") db.users)
    × (recovered.db.refresh_tokens ≡ delete (λ t. t.user_id == user.id) db.refresh_tokens)
unfolding run_grant
verified_code_resets_example =
    verified_code_resets env config "1" "new" 9 challenged verified {text = "token"}
      {hashed = "$new"} {w' = verified} refl refl (omega arith) refl refl (λ n. refl)
