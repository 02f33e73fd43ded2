-- ===== src/Repository/Otp/Laws.antt =====
-- What the calls of the OTP repository do to the tables.
use go_auth_refresh_template.Base.{
  String, Option, none, some, find, inl, inr, Option-cases, ◌∷◌, ◌≡◌, arith, update, delete, ◌==◌,
  id_key, text_key, int16,
}
use go_auth_refresh_template.Domain
use go_auth_refresh_template.Domain.{Uuid, Time, OtpOptions}
use go_auth_refresh_template.Database.{OtpRow}
use go_auth_refresh_template.Database.Otps.{
  is_reset_code, may_attempt, attempt, consume_otp_code_by_challenge_id, increase_otp_attempts,
  save_otp_code, invalidate_otp_codes_by_identifier,
}
use go_auth_refresh_template.World.{Env, World, ok, pure, sql_now, query, next_draw}
use go_auth_refresh_template.World.Laws.{>>=-ok}
use go_auth_refresh_template.Repository.Common.{optional}
use go_auth_refresh_template.Repository.Common.Laws.{stepped, Found, optional-query-ok}
use go_auth_refresh_template.Repository.Otp.{
  to_row, with_attempts, save, invalidate_by_identifier, consume_by_challenge_id, increase_attempts,
}

module _ (env : Env) (options : OtpOptions) (w : World) {w' : World} where
  pub save-ok :
      (otp : Domain.Otp)
      → save env options otp w ≡ (ok tt, w')
      → w' ≡ stepped w (record (w.db) { otp = to_row otp ∷ w.db.otp })
  unfolding save save_otp_code
  save-ok otp h = ground arith

  pub invalidate_by_identifier-ok :
      (identifier : String)
      → invalidate_by_identifier env options identifier w ≡ (ok tt, w')
      → w' ≡ stepped w (record (w.db) { otp = delete (λ o. o.identifier == identifier) w.db.otp })
  unfolding invalidate_by_identifier invalidate_otp_codes_by_identifier
  invalidate_by_identifier-ok identifier h = ground arith

  pub increase_attempts-ok :
      (id : Uuid)
      → increase_attempts env options id w ≡ (ok tt, w')
      → w'
        ≡ stepped w (record (w.db) {
          otp =
              update (may_attempt (sql_now env w) id (int16 options.max_attempts)) attempt w.db.otp;
        })
  unfolding increase_attempts increase_otp_attempts
  increase_attempts-ok id h = ground arith

  no_row :
      (id : Uuid) (hash : String) (found : Option OtpRow)
      → Found env
          (λ now. consume_otp_code_by_challenge_id now id hash (int16 options.max_attempts))
          w
          found
          w'
      → with_attempts found ≡ none
      → w' ≡ next_draw w
  no_row id hash none h e = h
  no_row id hash (some row) h e = cc

  -- No code was found, so no table has changed.
  pub consume_by_challenge_id-none :
      (id : Uuid) (hash : String)
      → consume_by_challenge_id env options id hash w ≡ (ok none, w')
      → w' ≡ next_draw w
  unfolding consume_by_challenge_id
  consume_by_challenge_id-none id hash h =
      let statement =
        λ (now : Time). consume_otp_code_by_challenge_id now id hash (int16 options.max_attempts) in
      let text : String = "fetching otp code by challenge id" in
      let (found, w₁, ran, rest) =
        >>=-ok (optional text (query env statement)) (λ o. pure (with_attempts o)) w h in
      let same_world : w₁ ≡ w' = ground arith in
      no_row id hash found (rw same_world at (optional-query-ok env statement w text found ran))
        (ground arith)

  row_taken :
      (id : Uuid) (hash : String) (found : Option OtpRow) (otp : Domain.Otp)
      → Found env
          (λ now. consume_otp_code_by_challenge_id now id hash (int16 options.max_attempts))
          w
          found
          w'
      → with_attempts found ≡ some otp
      → (row : OtpRow) × (find
            (is_reset_code (sql_now env w) id hash (int16 options.max_attempts))
            w.db.otp
          ≡ some row)
        × (otp.identifier ≡ row.identifier)
        × (w'
            ≡ stepped w (record (w.db) {
              otp =
                  delete
                    (is_reset_code (sql_now env w) id hash (int16 options.max_attempts))
                    w.db.otp;
            }))
  unfolding consume_otp_code_by_challenge_id
  row_taken id hash none otp h e = ground arith
  row_taken id hash (some row) otp h e =
      elim (Option-cases
        (find (is_reset_code (sql_now env w) id hash (int16 options.max_attempts)) w.db.otp)) [
          | inl none_left ↦ ground arith
          | inr (t, live) ↦ (t, live, ground arith, ground arith)
        ]

  -- A code was found: it was live, and its row is gone.
  pub consume_by_challenge_id-some :
      (id : Uuid) (hash : String) (otp : Domain.Otp)
      → consume_by_challenge_id env options id hash w ≡ (ok (some otp), w')
      → (row : OtpRow) × (find
            (is_reset_code (sql_now env w) id hash (int16 options.max_attempts))
            w.db.otp
          ≡ some row)
        × (otp.identifier ≡ row.identifier)
        × (w'
            ≡ stepped w (record (w.db) {
              otp =
                  delete
                    (is_reset_code (sql_now env w) id hash (int16 options.max_attempts))
                    w.db.otp;
            }))
  unfolding consume_by_challenge_id
  consume_by_challenge_id-some id hash otp h =
      let statement =
        λ (now : Time). consume_otp_code_by_challenge_id now id hash (int16 options.max_attempts) in
      let text : String = "fetching otp code by challenge id" in
      let (found, w₁, ran, rest) =
        >>=-ok (optional text (query env statement)) (λ o. pure (with_attempts o)) w h in
      let same_world : w₁ ≡ w' = ground arith in
      row_taken id hash found otp
        (rw same_world at (optional-query-ok env statement w text found ran)) (ground arith)
