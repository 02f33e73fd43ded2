-- ===== src/Service/Auth/OtpLogin.antt =====
-- `LoginWithOtp` of internal/service/auth.go, with `VerifyLoginCode` of otp.go.
use go_auth_refresh_template.Base.{
  Bool, ◌+◌, ◌≤◌, String, none, some, true, ◌≡◌, inl, inr, Option-cases, arith, ◌==◌, id_key,
  text_key, find, delete, find-delete_wider, if◌then◌else◌,
}
use go_auth_refresh_template.Domain
use go_auth_refresh_template.Domain.{Uuid, Time, Config}
use go_auth_refresh_template.Database.{OtpRow}
use go_auth_refresh_template.Database.Otps.{is_login_code}
use go_auth_refresh_template.Database.RefreshTokens.{is_live}
use go_auth_refresh_template.Database.RefreshTokens.Sessions.{session}
use go_auth_refresh_template.World.{Env, World, ok, wrap_error, sql_now}
use go_auth_refresh_template.World.Laws.{>>=-ok, wrap_error-ok}
use go_auth_refresh_template.Secure.{hash_otp}
use go_auth_refresh_template.Repository
use go_auth_refresh_template.Repository.Common.Laws.{stepped}
use go_auth_refresh_template.Repository.Otp.LoginCodes.{consume-ok}
use go_auth_refresh_template.Repository.User.Laws.{get_by_email_found}
use go_auth_refresh_template.Service.RefreshToken.Laws.{minted}
use go_auth_refresh_template.Service.Jwt.RoundTrip.{claims_of}
use go_auth_refresh_template.Service.Otp.{verify_login_code, or_wrong_code}
use go_auth_refresh_template.Service.Auth.{issue_tokens, login_with_otp_as, login_with_otp}
use go_auth_refresh_template.Service.Auth.Login.{issue_tokens-ok}

module _ (env : Env) (config : Config) where
  -- The rows that a code for an email serves.
  abbrev pub serves : Time → String → String → OtpRow → Bool
  serves now code email = is_login_code now (hash_otp env code config.otp.secret) email

  verify_login_code-ok :
      (code email : String) (w : World) {w' : World}
      → verify_login_code env config code email w ≡ (ok tt, w')
      → (row : OtpRow) × (find (serves (sql_now env w) code email) w.db.otp ≡ some row)
        × (w'
            ≡ stepped w
                (record (w.db) { otp = delete (serves (sql_now env w) code email) w.db.otp }))
  unfolding verify_login_code
  verify_login_code-ok code email w {w'} h =
      let consume =
        Repository.Otp.consume env config.otp email (hash_otp env code config.otp.secret) in
      let (found, w₁, ran, rest) =
        >>=-ok (wrap_error "consuming otp code" consume) (or_wrong_code env config) w h in
      elim (Option-cases found) [
        | inl absent ↦ ground arith
        | inr (otp, is) ↦
            let same : w₁ ≡ w' = ground arith in
            rw same at (
              consume-ok env config.otp w email (hash_otp env code config.otp.secret) otp {w' = w₁}
                (rw is at (wrap_error-ok "consuming otp code" consume w ran)))
      ]

  serves-earlier :
      (now later : Time) (code email : String)
      → now ≤ later
      → (o : OtpRow) → serves later code email o ≡ true
      → serves now code email o ≡ true
  serves-earlier now later code email after o h = ground arith

  -- A login with a code that succeeds was given the email of a user and a code that was stored for it
  -- and had not expired. The code serves no more, from then on. The user has a new session, as after a
  -- login with a password, and no other table is changed.
  pub login_with_otp_opens_session :
      (email code : String) (w : World) (t : Time) (j : Uuid) (later : Time)
      {access refresh : String} {w' : World}
      → login_with_otp env config email code w ≡ (ok (access, refresh), w')
      → w.tx_now ≡ none
      → env.db_now (w.draws + 1) ≤ later
      → (user : Domain.User) × (row : OtpRow) × (find (λ u. u.email == email) w.db.users
          ≡ some user)
        × (find (serves (env.db_now (w.draws + 1)) code email) w.db.otp ≡ some row)
        × (find (serves later code email) w'.db.otp ≡ none)
        × (env.jwt_sign config.jwt.private_key (claims_of env config.jwt user.id (w.draws + 2))
            ≡ ok access)
        × (refresh ≡ env.uuid_string (env.uuid_new (w.draws + 5)))
        × (session t w'.db.refresh_tokens j ≡ (
            if is_live t j (minted env config user.id (w.draws + 5))
            then some user.id
            else session t w.db.refresh_tokens j))
        × (w'.db.users ≡ w.db.users)
        × (w'.db.password_reset_tokens ≡ w.db.password_reset_tokens)
  unfolding login_with_otp
  login_with_otp_opens_session email code w t j later {access} {refresh} {w'} h outside after =
      let search = Repository.User.get_by_email env email in
      let (found, w₁, ran, rest) =
        >>=-ok (wrap_error "fetching user by email" search)
          (login_with_otp_as env config email code) w h in
      elim (Option-cases found) [
        | inl absent ↦ ground arith
        | inr (user, is) ↦
            let (known, step) =
              get_by_email_found env w {w' = w₁} email user
                (rw is at (wrap_error-ok "fetching user by email" search w ran)) in
            let verify = verify_login_code env config code email in
            let (_, w₂, checked, last) =
              >>=-ok (wrap_error "verifying otp code" verify) (λ _. issue_tokens env config user.id)
                w₁ (rw is at rest) in
            let (row, live, gone) =
              verify_login_code-ok code email w₁ {w' = w₂} (wrap_error-ok _ verify w₁ checked) in
            let (signed, named, new, stored) =
              issue_tokens-ok env config user.id w₂ {access = access} {refresh = refresh} {w' = w'}
                last in
            let spent : find (serves later code email)
                  (delete (serves (env.db_now (w.draws + 1)) code email) w.db.otp)
                ≡ none =
              find-delete_wider (serves later code email)
                (serves (env.db_now (w.draws + 1)) code email) w.db.otp
                (serves-earlier (env.db_now (w.draws + 1)) later code email after) in
            (
              user,
              row,
              known,
              ground arith,
              ground arith,
              ground arith,
              ground arith,
              ground arith,
              ground arith,
              ground arith,
            )
      ]
