-- ===== src/Service/Otp/Send.antt =====
-- `SendCode` of internal/service/otp.go, and the code that it sends at `VerifyLoginCode`.
use go_auth_refresh_template.Base.{
  int16, ℕ, zero, suc, ◌+◌, ◌<◌, ℤ, pos, negsuc, String, none, some, [], ◌∷◌, ◌≡◌, refl, inl, inr,
  arith, find, delete, true, ◌==◌, id_key, text_key, ==_iff, find-true, delete_wider, ==_self,
}
use go_auth_refresh_template.Domain
use go_auth_refresh_template.Domain.{Uuid, Time, Config}
use go_auth_refresh_template.Database.{OtpRow}
use go_auth_refresh_template.Database.Users
use go_auth_refresh_template.Database.Otps.{is_login_code, consume_otp_code}
use go_auth_refresh_template.World.{Env, World, ok, sql_now, wrap_error, next_draw}
use go_auth_refresh_template.World.Laws.{>>=-ok, wrap_error-ok, outcome-cases}
use go_auth_refresh_template.Secure.{hash_otp}
use go_auth_refresh_template.Secure.Format.{sprintf_06d}
use go_auth_refresh_template.Repository
use go_auth_refresh_template.Repository.Otp.Laws.{save-ok, invalidate_by_identifier-ok}
use go_auth_refresh_template.Repository.Otp.{to_row}
use go_auth_refresh_template.Repository.Transaction.Laws.{begun, exec-ok}
use go_auth_refresh_template.Service.Otp.{
  random_code, send_mail, replace_code, new_otp, send_code_to, send_code, store_code, mail_code,
  verify_login_code,
}

module _ (env : Env) (config : Config) where
  -- For an unknown email the answer is a challenge id, no mail is sent and no table changes.
  pub send_code_unknown :
      (email : String) (w : World)
      → find (λ u. u.email == email) w.db.users ≡ none
      → env.db_fault (w.draws + 1) ≡ none
      → ((send_code env config email w).0 ≡ ok (env.uuid_new w.draws))
        × ((send_code env config email w).1.db ≡ w.db)
        × ((send_code env config email w).1.outbox ≡ w.outbox)
  unfolding send_code Repository.User.get_by_email Users.get_by_email
  send_code_unknown email w missing f = ground arith

  -- The replacement of a code: the new row is the only one of its identifier.
  replace_code-ok :
      (otp : Domain.Otp) (w : World) {w' : World}
      → replace_code env config otp w ≡ (ok tt, w')
      → (w'.db ≡ record (w.db) {
        otp = to_row otp ∷ delete (λ o. o.identifier == otp.identifier) w.db.otp;
      })
        × (w'.outbox ≡ w.outbox)
  unfolding replace_code
  replace_code-ok otp w {w'} h =
      let invalidate = Repository.Otp.invalidate_by_identifier env config.otp otp.identifier in
      let save = Repository.Otp.save env config.otp otp in
      let (_, w₁, ran, rest) =
        >>=-ok (wrap_error "invalidating previous otp codes" invalidate)
          (λ _. wrap_error "saving hash code" save) w h in
      let cleared =
        invalidate_by_identifier-ok env config.otp w {w' = w₁} otp.identifier
          (wrap_error-ok _ invalidate w ran) in
      let saved = save-ok env config.otp w₁ {w' = w'} otp (wrap_error-ok _ save w₁ rest) in
      (ground arith, ground arith)

  -- What the sending of the code `n` to the user's address leaves behind.
  pub record Sent (challenge : Uuid) (email : String) (w w' : World) : Type 0 where
    pub n : ℕ
    pub html : String
    pub row : OtpRow
    pub rendered : env.otp_template (sprintf_06d n) ≡ ok html
    pub mailed :
        w'.outbox
        ≡ record { from = config.resend.email; to = email ∷ []; subject = "OTP code"; html = html }
          ∷ w.outbox
    pub id : row.id ≡ challenge
    pub identifier : row.identifier ≡ email
    pub code : row.code_hash ≡ hash_otp env (sprintf_06d n) config.otp.secret
    pub attempts : row.attempts ≡ pos 0
    pub expires_at : row.expires_at ≡ env.now (w.draws + 2) + config.otp.duration
    pub stored : w'.db ≡ record (w.db) { otp = row ∷ delete (λ o. o.identifier == email) w.db.otp }

  send_mail-ok :
      (email code : String) (w : World) {w' : World}
      → send_mail env config email code w ≡ (ok tt, w')
      → (html : String) × (env.otp_template code ≡ ok html)
        × (w' ≡ record w {
          draws = (next_draw w).draws;
          outbox =
              record {
                from = config.resend.email;
                to = email ∷ [];
                subject = "OTP code";
                html = html;
              }
              ∷ w.outbox;
        })
  unfolding send_mail
  send_mail-ok email code w h = elim (outcome-cases (env.otp_template code)) [
    | inl (html, e) ↦ (html, e, ground arith)
    | inr (inl (x, e)) ↦ ground arith
    | inr (inr (x, e)) ↦ ground arith
  ]

  random_code-ok :
      (max : ℤ) (w : World) {n : ℕ} {w' : World}
      → random_code env config max w ≡ (ok n, w')
      → w' ≡ next_draw w
  unfolding random_code
  random_code-ok (pos zero) w h = ground arith
  random_code-ok (pos (suc bound)) w h = ground arith
  random_code-ok (negsuc n) w h = ground arith

  -- The row that `store_code` saves in the world `w`.
  abbrev stored_otp : Uuid → String → String → World → Domain.Otp
  stored_otp challenge email code w = record {
    id = challenge;
    code = hash_otp env code config.otp.secret;
    identifier = email;
    attempts = pos 0;
    expires_at = env.now w.draws + config.otp.duration;
    created_at = env.now (w.draws + 1);
  }

  store_code-ok :
      (challenge : Uuid) (email code : String) (w : World) {c : Uuid} {w' : World}
      → store_code env config challenge email code w ≡ (ok c, w')
      → (c ≡ challenge)
        × (w'.db ≡ record (w.db) {
          otp =
              to_row (stored_otp challenge email code w)
              ∷ delete (λ o. o.identifier == email) w.db.otp;
        })
        × (w'.outbox ≡ w.outbox)
  unfolding store_code new_otp
  store_code-ok challenge email code w {c} {w'} h =
      let otp = stored_otp challenge email code w in
      let w₁ : World = record w { draws = w.draws + 1 + 1 } in
      let fn = replace_code env config otp in
      let (w₂, ran, committed, outbox, _) = exec-ok env fn w₁ {a = tt} {w' = w'} (ground arith) in
      let (replaced, unsent) = replace_code-ok otp (begun env w₁) ran in
      (ground arith, ground arith, ground arith)

  send_code_to-ok :
      (challenge : Uuid) (email : String) (w : World) {c : Uuid} {w' : World}
      → send_code_to env config challenge email w ≡ (ok c, w')
      → (c ≡ challenge) × Sent challenge email w w'
  unfolding send_code_to mail_code int16
  send_code_to-ok challenge email w {c} {w'} h =
      let random = random_code env config config.otp.max_value in
      let (n, w₁, drawn, rest) =
        >>=-ok (wrap_error "generating otp code" random)
          (λ code. mail_code env config challenge email (sprintf_06d code)) w h in
      let send = send_mail env config email (sprintf_06d n) in
      let (_, w₂, sent, last) =
        >>=-ok (wrap_error "sending coding" send)
          (λ _. store_code env config challenge email (sprintf_06d n)) w₁ rest in
      let (html, rendered, mailed) =
        send_mail-ok email (sprintf_06d n) w₁ (wrap_error-ok _ send w₁ sent) in
      let (is, stored, outbox) = store_code-ok challenge email (sprintf_06d n) w₂ last in
      let drew : w₁ ≡ next_draw w =
        random_code-ok config.otp.max_value w (wrap_error-ok _ random w drawn) in
      (
        is,
        record {
          n = n;
          html = html;
          row = to_row (stored_otp challenge email (sprintf_06d n) w₂);
          rendered = rendered;
          mailed = ground arith;
          id = refl;
          identifier = refl;
          code = refl;
          attempts = refl;
          expires_at = ground arith;
          stored = ground arith;
        },
      )

  -- Which row of the email remains, where the user is known.
  send_code-ok :
      (email : String) (w : World) {user : Domain.User} {c : Uuid} {w' : World}
      → find (λ u. u.email == email) w.db.users ≡ some user
      → env.db_fault (w.draws + 1) ≡ none
      → send_code env config email w ≡ (ok c, w')
      → (c ≡ env.uuid_new w.draws) × Sent c user.email (record w { draws = w.draws + 1 + 1 }) w'
  unfolding send_code Repository.User.get_by_email Users.get_by_email
  send_code-ok email w {user} {c} {w'} known f h =
      let (is, sent) =
        send_code_to-ok (env.uuid_new w.draws) user.email (record w { draws = w.draws + 1 + 1 })
          {c = c} {w' = w'} (ground arith) in
      (is, rw is sent)

  -- After a code is sent to a known email: the mail that went out carries the code, rendered, and
  -- `verify_login_code` accepts this code for the email, on the tables as they were left, before it
  -- expires and where the database has no fault. It leaves no code of the email, and no other row of
  -- a table is changed by the two calls.
  pub sent_code_serves :
      (email : String) (w w₂ : World) {user : Domain.User} {c : Uuid} {w' : World}
      → find (λ u. u.email == email) w.db.users ≡ some user
      → env.db_fault (w.draws + 1) ≡ none
      → send_code env config email w ≡ (ok c, w')
      → w₂.db ≡ w'.db
      → sql_now env w₂ < env.now (w.draws + 4) + config.otp.duration
      → env.db_fault w₂.draws ≡ none
      → (n : ℕ) × (html : String) × (env.otp_template (sprintf_06d n) ≡ ok html)
        × (w'.outbox
            ≡ record {
              from = config.resend.email;
              to = email ∷ [];
              subject = "OTP code";
              html = html;
            }
              ∷ w.outbox)
        × ((verify_login_code env config (sprintf_06d n) email w₂).0 ≡ ok tt)
        × ((verify_login_code env config (sprintf_06d n) email w₂).1.db
            ≡ record (w.db) { otp = delete (λ o. o.identifier == email) w.db.otp })
  unfolding verify_login_code Repository.Otp.consume consume_otp_code
  sent_code_serves email w w₂ {user} known f h same early f₂ =
      let (_, s) = send_code-ok email w known f h in
      let is_email : user.email ≡ email =
        (==_iff user.email email).0 (find-true (λ u. u.email == email) w.db.users known) in
      let row = s.row in
      let left = delete (λ o. o.identifier == email) w.db.otp in
      let tables : w₂.db ≡ record (w.db) { otp = row ∷ left } =
        rw (same, s.stored, is_email) refl in
      let hash = hash_otp env (sprintf_06d s.n) config.otp.secret in
      let accepted : is_login_code (sql_now env w₂) hash email row ≡ true =
        rw (s.code, s.identifier, is_email, s.expires_at)
          (ground (arith, ==_self hash, ==_self email)) in
      let rest =
        delete_wider (is_login_code (sql_now env w₂) hash email) (λ o. o.identifier == email)
          w.db.otp (λ o h. ground arith) in
      (
        s.n,
        s.html,
        s.rendered,
        rw (s.mailed, is_email) refl,
        ground (arith, accepted, tables),
        ground (arith, accepted, tables, rest),
      )
