-- ===== src/Service/Integrity/Codes.antt =====
-- What the methods of internal/service/otp.go keep of the tables.
use go_auth_refresh_template.Base.{
  ◌≡◌, ◌∙◌, ℕ, ◌+◌, refl, text_key, zero, suc, ℤ, pos, negsuc, String, Option, none, some, inl, inr,
  arith, Option-cases,
}
use go_auth_refresh_template.Domain
use go_auth_refresh_template.Domain.{Uuid, Config, JwtOptions}
use go_auth_refresh_template.World.{
  draw, Env, Action, pure, ◌>>=◌, ◌>>◌, wrap_error, SendEmailRequest,
}
use go_auth_refresh_template.World.Invariants.{
  Keeps, Since, still, keeping, Keeps-raise, Keeps-pure,
}
use go_auth_refresh_template.Secure.{hash_otp, hash_reset_token, generate_reset_token}
use go_auth_refresh_template.Repository.Integrity.{
  IsNew, stored, IsCodeHash, IsTokenHash, get_by_email-Keeps, save_reset-Keeps, save_otp-Keeps,
  invalidate_by_identifier-Keeps, consume_otp-Keeps, consume_by_challenge_id-Keeps,
  increase_attempts-Keeps,
}
use go_auth_refresh_template.Repository.Transaction.Integrity.{Keeps-exec}
use go_auth_refresh_template.Repository
use go_auth_refresh_template.Repository.Transaction.{exec}
use go_auth_refresh_template.Database.{Database}
use go_auth_refresh_template.Database.Preserved.{Preserved}
use go_auth_refresh_template.Service.Otp.{
  deliver, send_code_if_registered, or_wrong_code, grant_if_registered, send_mail, random_code,
  replace_code, new_otp, store_code, mail_code, send_code_to, send_code, verify_login_code,
  grant_reset_token, after_consume, verify_password_reset_code,
}

module _ (env : Env) (config : Config) {start : ℕ} {P : Database → Type 0}
    (s : Preserved (stored env config start) P) where
  deliver-Keeps : (request : SendEmailRequest) → Keeps (Since start P) (deliver env config request)
  deliver-Keeps request = record {
    kept = λ w v. elim (Option-cases (env.send_email w.draws config.resend.api_key request)) [
      | inl e ↦ still w _ (ground arith) (ground arith) v
      | inr (x, e) ↦ still w _ (ground arith) (ground arith) v
    ];
  }

  send_mail-Keeps : (email code : String) → Keeps (Since start P) (send_mail env config email code)
  unfolding send_mail
  send_mail-Keeps email code = search (keeping, deliver-Keeps) depth 12

  random_code-Keeps : (max : ℤ) → Keeps (Since start P) (random_code env config max)
  unfolding random_code
  random_code-Keeps (pos zero) = record { kept = λ w p. p }
  random_code-Keeps (pos (suc n)) = search keeping
  random_code-Keeps (negsuc n) = record { kept = λ w p. p }

  replace_code-Keeps :
      (otp : Domain.Otp)
      → IsNew env start otp.id
      → IsCodeHash env config otp.code
      → Keeps (Since start P) (replace_code env config otp)
  unfolding replace_code
  replace_code-Keeps otp new hash =
      search (keeping, save_otp-Keeps, invalidate_by_identifier-Keeps) depth 12

  -- A code that is made has the id of its challenge and the hash it is made with.
  new_otp->>= :
      {A : Type 0} (id : Uuid) (email hash : String) (f : Domain.Otp → Action A)
      → ((otp : Domain.Otp) → otp.id ≡ id → otp.code ≡ hash → Keeps (Since start P) (f otp))
      → Keeps (Since start P) (new_otp env config id email hash >>= f)
  unfolding new_otp
  new_otp->>= id email hash f h = record {
    kept = λ w q.
        (h _ refl refl).kept _
          (still w (record w { draws = w.draws + 1 + 1 }) refl (omega arith) q);
  }

  store_code-Keeps :
      (challenge_id : Uuid) (email code : String)
      → IsNew env start challenge_id
      → Keeps (Since start P) (store_code env config challenge_id email code)
  unfolding store_code
  store_code-Keeps challenge_id email code (n, later, is) =
      new_otp->>= challenge_id email (hash_otp env code config.otp.secret)
        (λ otp.
          wrap_error "replacing otp code" (exec env (replace_code env config otp))
          >> pure challenge_id)
        (λ otp same hashed.
          let new : IsNew env start otp.id = (n, later, same ∙ is) in
          let hash : IsCodeHash env config otp.code = record { code = code; made = hashed } in
          search (keeping, Keeps-exec, replace_code-Keeps) depth 12)

  mail_code-Keeps :
      (challenge_id : Uuid) (email code : String)
      → IsNew env start challenge_id
      → Keeps (Since start P) (mail_code env config challenge_id email code)
  unfolding mail_code
  mail_code-Keeps challenge_id email code new =
      search (keeping, send_mail-Keeps, store_code-Keeps) depth 12

  send_code_to-Keeps :
      (challenge_id : Uuid) (email : String)
      → IsNew env start challenge_id
      → Keeps (Since start P) (send_code_to env config challenge_id email)
  unfolding send_code_to
  send_code_to-Keeps challenge_id email new =
      search (keeping, random_code-Keeps, mail_code-Keeps) depth 12

  send_code_if_registered-Keeps :
      (challenge_id : Uuid) (user : Option Domain.User)
      → IsNew env start challenge_id
      → Keeps (Since start P) (send_code_if_registered env config challenge_id user)
  send_code_if_registered-Keeps challenge_id none new = Keeps-pure challenge_id
  send_code_if_registered-Keeps challenge_id (some user) new =
      send_code_to-Keeps challenge_id user.email new

  -- An id that is drawn is a new one.
  uuid_new->>= :
      {A : Type 0} (f : Uuid → Action A)
      → ((id : Uuid) → IsNew env start id → Keeps (Since start P) (f id))
      → Keeps (Since start P) (draw env.uuid_new >>= f)
  uuid_new->>= f h = record {
    kept = λ w q.
        (h _ (w.draws, q.later, refl)).kept _
          (still w (record w { draws = w.draws + 1 }) refl (omega arith) q);
  }

  pub send_code-Keeps : (email : String) → Keeps (Since start P) (send_code env config email)
  unfolding send_code
  send_code-Keeps email =
      uuid_new->>=
        (λ challenge_id.
          wrap_error "fetching user by email" (Repository.User.get_by_email env email)
          >>= send_code_if_registered env config challenge_id)
        (λ challenge_id new.
          search (keeping, get_by_email-Keeps, send_code_if_registered-Keeps) depth 12)

  or_wrong_code-Keeps :
      (otp : Option Domain.Otp) → Keeps (Since start P) (or_wrong_code env config otp)
  or_wrong_code-Keeps none = Keeps-raise _
  or_wrong_code-Keeps (some otp) = Keeps-pure tt

  pub verify_login_code-Keeps :
      (code email : String) → Keeps (Since start P) (verify_login_code env config code email)
  unfolding verify_login_code
  verify_login_code-Keeps code email =
      search (keeping, consume_otp-Keeps, or_wrong_code-Keeps) depth 12

  hash_reset_token-IsTokenHash :
      (token : String)
      → IsTokenHash env config (hash_reset_token env token config.reset_token.secret)
  hash_reset_token-IsTokenHash token = record { token = token; made = refl }

  grant_reset_token-Keeps :
      (user : Domain.User) → Keeps (Since start P) (grant_reset_token env config user)
  unfolding grant_reset_token generate_reset_token
  grant_reset_token-Keeps user =
      search (keeping, save_reset-Keeps, hash_reset_token-IsTokenHash) depth 15 fits 3000

  grant_if_registered-Keeps :
      (user : Option Domain.User) → Keeps (Since start P) (grant_if_registered env config user)
  grant_if_registered-Keeps none = Keeps-raise _
  grant_if_registered-Keeps (some user) = grant_reset_token-Keeps user

  after_consume-Keeps :
      (challenge_id : Uuid) (found : Option Domain.Otp)
      → Keeps (Since start P) (after_consume env config challenge_id found)
  unfolding after_consume
  after_consume-Keeps challenge_id none = search (keeping, increase_attempts-Keeps) depth 12
  after_consume-Keeps challenge_id (some otp) =
      search (keeping, get_by_email-Keeps, grant_if_registered-Keeps) depth 12

  pub verify_password_reset_code-Keeps :
      (code : String) (challenge_id : Uuid)
      → Keeps (Since start P) (verify_password_reset_code env config code challenge_id)
  unfolding verify_password_reset_code
  verify_password_reset_code-Keeps code challenge_id =
      search (keeping, consume_by_challenge_id-Keeps, after_consume-Keeps) depth 12
