-- ===== src/Repository/Otp/LoginCodes.antt =====
-- What the consumption of a login code by the OTP repository has done.
use go_auth_refresh_template.Base.{
  String, Option, none, some, inl, inr, Option-cases, ◌≡◌, arith, find, delete,
}
use go_auth_refresh_template.Domain
use go_auth_refresh_template.Domain.{Time, OtpOptions}
use go_auth_refresh_template.Database.{OtpRow}
use go_auth_refresh_template.Database.Otps.{is_login_code, consume_otp_code}
use go_auth_refresh_template.World.{Env, World, ok, pure, sql_now, query}
use go_auth_refresh_template.World.Laws.{>>=-ok}
use go_auth_refresh_template.Repository.Common.{optional}
use go_auth_refresh_template.Repository.Common.Laws.{stepped, Found, optional-query-ok}
use go_auth_refresh_template.Repository.Otp.{without_attempts, consume}

module _ (env : Env) (options : OtpOptions) (w : World) where
  -- The row that was found, and its absence afterwards.
  abbrev pub Consumed : String → String → World → Type 0
  Consumed email hash w' =
      (row : OtpRow) × (find (is_login_code (sql_now env w) hash email) w.db.otp ≡ some row)
      × (w'
          ≡ stepped w
              (record (w.db) { otp = delete (is_login_code (sql_now env w) hash email) w.db.otp }))

  row_taken :
      (email hash : String) (found : Option OtpRow) (otp : Domain.Otp) {w' : World}
      → Found env (λ now. consume_otp_code now hash email) w found w'
      → without_attempts found ≡ some otp
      → Consumed email hash w'
  unfolding consume_otp_code
  row_taken email hash none otp h e = ground arith
  row_taken email hash (some row) otp h e =
      elim (Option-cases (find (is_login_code (sql_now env w) hash email) w.db.otp)) [
        | inl absent ↦ ground arith
        | inr (t, live) ↦ (t, live, ground arith)
      ]

  pub consume-ok :
      (email hash : String) (otp : Domain.Otp) {w' : World}
      → consume env options email hash w ≡ (ok (some otp), w')
      → Consumed email hash w'
  unfolding consume
  consume-ok email hash otp {w'} h =
      let statement = λ (now : Time). consume_otp_code now hash email in
      let text : String = "fetching otp code" in
      let (found, w₁, ran, rest) =
        >>=-ok (optional text (query env statement)) (λ o. pure (without_attempts o)) w h in
      let same_world : w₁ ≡ w' = ground arith in
      row_taken email hash found otp
        (rw same_world at (optional-query-ok env statement w text found ran)) (ground arith)
