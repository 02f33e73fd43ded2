-- ===== src/Service/Auth/Recovery.antt =====
-- `VerifyPasswordResetCode` of internal/service/otp.go where it answers a reset token, and the
-- password reset that the token is for.
use go_auth_refresh_template.Base.{
  ℕ, ◌+◌, ◌<◌, String, Option, none, some, ◌∷◌, ◌≡◌, refl, inl, inr, Option-cases, arith, ◌==◌,
  ==_self, id_key, text_key, find, update, delete, true, int16,
}
use go_auth_refresh_template.Domain
use go_auth_refresh_template.Domain.{Uuid, Time, Config}
use go_auth_refresh_template.Database.{PasswordResetToken, OtpRow}
use go_auth_refresh_template.Database.Users.{fits_varchar, set_password, update_user_password}
use go_auth_refresh_template.Database.RefreshTokens.{delete_refresh_tokens_by_user_id}
use go_auth_refresh_template.Database.Otps.{is_reset_code}
use go_auth_refresh_template.Repository.Otp.Laws.{consume_by_challenge_id-some}
use go_auth_refresh_template.Database.ResetTokens.{
  is_valid, save_password_reset_token, consume_password_reset_token,
}
use go_auth_refresh_template.World.{Env, World, ok, sql_now, wrap_error}
use go_auth_refresh_template.World.Laws.{>>=-ok, wrap_error-ok, outcome-cases}
use go_auth_refresh_template.Secure.{
  hash_otp, generate_reset_token, hash_password, reset_token_bytes,
}
use go_auth_refresh_template.Repository
use go_auth_refresh_template.Repository.User.Laws.{get_by_email_found}
use go_auth_refresh_template.Repository.Transaction.{exec}
use go_auth_refresh_template.Service.Otp.{
  grant_reset_token, grant_if_registered, after_consume, verify_password_reset_code,
}
use go_auth_refresh_template.Service.Auth.{reset_password, apply_reset}
use go_auth_refresh_template.Service.Auth.Reset.{stored_hash, reset_password-ok}

module _ (env : Env) (config : Config) where
  -- The row of a reset token that is made from the draw `n` on.
  abbrev pub IsGranted : String → Uuid → ℕ → PasswordResetToken → Type 0
  IsGranted text user n row =
      (row.user_id ≡ user)
      × (row.token_hash ≡ stored_hash env config text)
      × (row.used_at ≡ none)
      × (row.expires_at ≡ env.now n + config.reset_token.duration)

  grant_reset_token-ok :
      (user : Domain.User) (w : World) {text : String} {w' : World}
      → grant_reset_token env config user w ≡ (ok text, w')
      → (row : PasswordResetToken) × IsGranted text user.id (w.draws + 1 + 1) row
        × (w'.db ≡ record (w.db) { password_reset_tokens = row ∷ w.db.password_reset_tokens })
  unfolding grant_reset_token generate_reset_token Repository.ResetToken.save
      save_password_reset_token
  grant_reset_token-ok user w {text} {w'} h =
      elim (outcome-cases (env.rand_bytes w.draws reset_token_bytes)) [
        | inl (bytes, e) ↦ (
          record {
            id = env.uuid_new (w.draws + 1);
            user_id = user.id;
            token_hash = stored_hash env config text;
            expires_at = env.now (w.draws + 1 + 1) + config.reset_token.duration;
            used_at = none;
            created_at = sql_now env (record w { draws = w.draws + 1 + 1 + 1 + 1 });
          },
          (refl, refl, refl, refl),
          ground arith,
        )
        | inr (inl (x, e)) ↦ ground arith
        | inr (inr (x, e)) ↦ ground arith
      ]

  -- What a verification at the world `w` that answers the reset token `text` has done: the code was
  -- live and is gone, its address is the user's, and a reset token of the user is stored.
  pub record Granted (code : String) (challenge_id : Uuid) (text : String) (w w' : World)
      : Type 0 where
    pub otp : OtpRow
    pub user : Domain.User
    pub row : PasswordResetToken
    pub live :
        find
          (is_reset_code
            (sql_now env w)
            challenge_id
            (hash_otp env code config.otp.secret)
            (int16 config.otp.max_attempts))
          w.db.otp
        ≡ some otp
    pub owner : find (λ u. u.email == otp.identifier) w.db.users ≡ some user
    pub granted : IsGranted text user.id (w.draws + 1 + 1 + 1 + 1) row
    pub stored : w'.db ≡ record (w.db) {
      otp =
          delete
            (is_reset_code
              (sql_now env w)
              challenge_id
              (hash_otp env code config.otp.secret)
              (int16 config.otp.max_attempts))
            w.db.otp;
      password_reset_tokens = row ∷ w.db.password_reset_tokens;
    }

  after_consume-ok :
      (challenge_id : Uuid) (found : Option Domain.Otp) (w : World) {text : String} {w' : World}
      → after_consume env config challenge_id found w ≡ (ok text, w')
      → (otp : Domain.Otp) × (user : Domain.User) × (row : PasswordResetToken) × (found ≡ some otp)
        × (find (λ u. u.email == otp.identifier) w.db.users ≡ some user)
        × IsGranted text user.id (w.draws + 1 + 1 + 1) row
        × (w'.db ≡ record (w.db) { password_reset_tokens = row ∷ w.db.password_reset_tokens })
  unfolding after_consume
  after_consume-ok challenge_id none w h = ground arith
  after_consume-ok challenge_id (some otp) w {text} {w'} h =
      let search = Repository.User.get_by_email env otp.identifier in
      let (found, w₁, ran, rest) =
        >>=-ok (wrap_error "fetching user by email" search) (grant_if_registered env config) w h in
      elim (Option-cases found) [
        | inl absent ↦ ground arith
        | inr (user, is) ↦
            let (known, step) =
              get_by_email_found env w {w' = w₁} otp.identifier user
                (rw is at (wrap_error-ok "fetching user by email" search w ran)) in
            let (row, granted, stored) =
              grant_reset_token-ok user w₁ {text = text} {w' = w'} (ground arith) in
            (otp, user, row, refl, known, ground arith, ground arith)
      ]

  verify_password_reset_code-ok :
      (code : String) (challenge_id : Uuid) (w : World) {text : String} {w' : World}
      → verify_password_reset_code env config code challenge_id w ≡ (ok text, w')
      → Granted code challenge_id text w w'
  unfolding verify_password_reset_code
  verify_password_reset_code-ok code challenge_id w {text} {w'} h =
      let consume =
        Repository.Otp.consume_by_challenge_id env config.otp challenge_id
          (hash_otp env code config.otp.secret) in
      let (found, w₁, ran, rest) =
        >>=-ok (wrap_error "consuming otp code" consume) (after_consume env config challenge_id) w
          h in
      let (otp, user, row, is, owner, granted, stored) =
        after_consume-ok challenge_id found w₁ {text = text} {w' = w'} rest in
      let (taken, live, same, step) =
        consume_by_challenge_id-some env config.otp w {w' = w₁} challenge_id _ otp
          (rw is at (wrap_error-ok "consuming otp code" consume w ran)) in
      record {
        otp = taken;
        user = user;
        row = row;
        live = live;
        owner = ground arith;
        granted = ground arith;
        stored = ground arith;
      }

  accepted_reset :
      (reset_token password : String) (w : World) {row : PasswordResetToken} {hashed : String}
      → find
          (is_valid (env.db_now (w.draws + 1)) (stored_hash env config reset_token))
          w.db.password_reset_tokens
        ≡ some row
      → env.bcrypt_generate w.draws password ≡ ok hashed
      → fits_varchar hashed ≡ true
      → ((n : ℕ) → env.db_fault n ≡ none)
      → (reset_password env config reset_token password w).0 ≡ ok tt
  unfolding reset_password hash_password exec apply_reset Repository.ResetToken.consume
      consume_password_reset_token Repository.User.update_password update_user_password
      Repository.RefreshToken.delete_by_user_id delete_refresh_tokens_by_user_id
  accepted_reset reset_token password w valid made fits f = ground (
    arith,
    f (w.draws + 1),
    f (w.draws + 1 + 1),
    f (w.draws + 1 + 1 + 1),
    f (w.draws + 1 + 1 + 1 + 1),
    f (w.draws + 1 + 1 + 1 + 1 + 1),
  )

  -- Where a code is verified, a live code of the challenge was stored with the hash of the one given,
  -- and the answer serves a password reset: with any password that bcrypt hashes to a text that the column
  -- takes, on the tables as they were left, before the reset token expires and where the database has
  -- no fault, the reset succeeds.
  -- It gives the new hash to the user whose email the code was sent to and to no other, and leaves no
  -- refresh token of that user.
  pub verified_code_resets :
      (code password : String) (challenge_id : Uuid) (w w₂ : World) {text hashed : String}
      {w' : World}
      → verify_password_reset_code env config code challenge_id w ≡ (ok text, w')
      → w₂.db ≡ w'.db
      → env.db_now (w₂.draws + 1) < env.now (w.draws + 4) + config.reset_token.duration
      → env.bcrypt_generate w₂.draws password ≡ ok hashed
      → fits_varchar hashed ≡ true
      → ((n : ℕ) → env.db_fault n ≡ none)
      → (otp : OtpRow) × (user : Domain.User) × (find
            (is_reset_code
              (sql_now env w)
              challenge_id
              (hash_otp env code config.otp.secret)
              (int16 config.otp.max_attempts))
            w.db.otp
          ≡ some otp)
        × (find (λ u. u.email == otp.identifier) w.db.users ≡ some user)
        × ((reset_password env config text password w₂).0 ≡ ok tt)
        × ((reset_password env config text password w₂).1.db.users
            ≡ update (λ u. u.id == user.id) (set_password hashed) w.db.users)
        × ((reset_password env config text password w₂).1.db.refresh_tokens
            ≡ delete (λ t. t.user_id == user.id) w.db.refresh_tokens)
  verified_code_resets code password challenge_id w w₂ {text} {hashed} {w'} h same before made fits
        f =
      let g = verify_password_reset_code-ok code challenge_id w {text = text} {w' = w'} h in
      let (owner, hash, unused, expires) = g.granted in
      let valid : find (is_valid (env.db_now (w₂.draws + 1)) (stored_hash env config text))
            w₂.db.password_reset_tokens
          ≡ some g.row =
        rw (same, g.stored) (ground (arith, ==_self (stored_hash env config text))) in
      let accepted = accepted_reset text password w₂ valid made fits f in
      let (hashed', made', r) =
        reset_password-ok env config text password w₂
          {w' = (reset_password env config text password w₂).1} (ground arith) in
      let token : r.token ≡ g.row = ground (arith, r.valid) in
      (
        g.otp,
        g.user,
        g.live,
        g.owner,
        accepted,
        ground (arith, r.stored, g.stored),
        ground (arith, r.stored, g.stored),
      )
