-- ===== src/Repository/Integrity.antt =====
-- What the methods of internal/repository keep of the tables.
use mathlib.Core.Path.{subst}
use go_auth_refresh_template.Base.{String, Option, none, some, ◌≡◌, inl, inr, arith, int16, ℕ, ◌≤◌}
use go_auth_refresh_template.Domain
use go_auth_refresh_template.Domain.{Uuid, Time, Config, OtpOptions}
use go_auth_refresh_template.Errors.{Error}
use go_auth_refresh_template.Database.{Database, Reply}
use go_auth_refresh_template.Database.Users
use go_auth_refresh_template.Database.Users.{answer_one}
use go_auth_refresh_template.Database.Otps.{
  consume_otp_code, consume_otp_code_by_challenge_id, is_login_code, is_reset_code,
}
use go_auth_refresh_template.Database.Preserved.{Preserved, Stored, Answers}
use go_auth_refresh_template.World.{Env, World, ok, Action, query, pure, ◌>>=◌}
use go_auth_refresh_template.Secure.{hash_otp, hash_reset_token}
use go_auth_refresh_template.World.Laws.{outcome-cases}
use go_auth_refresh_template.World.Invariants.{
  Keeps, Since, Keeps-query, Keeps->>=, Keeps-pure, Keeps-wrap_error, keeping,
}
use go_auth_refresh_template.Repository
use go_auth_refresh_template.Repository.Common.{map_error, optional}

answer_one-Keeps :
    {A : Type 0} (P : Database → Type 0) (db : Database)
    → P db
    → (row : Option A) → Answers {A = A} P (answer_one row db)
answer_one-Keeps P db v none a db' h = ground arith
answer_one-Keeps P db v (some row) a db' h = let is : db ≡ db' = ground arith in subst P is v

module _ {Q : World → Type 0} where
  pub Keeps-map_error :
      {A : Type 0} (f : Error → Error) (m : Action A) → Keeps Q m → Keeps Q (map_error f m)
  Keeps-map_error f m k = record {
    kept = λ w q.
        let is : (m w).1 ≡ (map_error f m w).1 = elim (outcome-cases (m w).0) [
          | inl (a, e) ↦ ground arith
          | inr (inl (x, e)) ↦ ground arith
          | inr (inr (x, e)) ↦ ground arith
        ] in
        subst Q is (k.kept w q);
  }

  pub Keeps-optional :
      {A : Type 0} (text : String) (m : Action A) → Keeps Q m → Keeps Q (optional text m)
  Keeps-optional text m k = record { kept = k.kept }

module _ {start : ℕ} {P : Database → Type 0} where
  -- A search changes nothing.
  searched :
      {A : Type 0} (env : Env) (f : Database → Option A)
      → Keeps (Since start P) (query env (λ _ db. answer_one (f db) db))
  searched env f = Keeps-query env _ (λ now db v. answer_one-Keeps P db v (f db))

  -- A row that a statement answers, as the caller reads it.
  read_row :
      {A B : Type 0} (env : Env) (text : String) (statement : Time → Database → Reply A)
      (f : Option A → B)
      → ((now : Time) (db : Database) → P db → Answers P (statement now db))
      → Keeps (Since start P) (optional text (query env statement) >>= λ o. pure (f o))
  read_row env text statement f k =
      Keeps->>= (optional text (query env statement)) (λ o. pure (f o))
        (Keeps-optional text _ (Keeps-query env statement k)) (λ o. Keeps-pure (f o))

-- The ids that `uuid.New` makes from the draw `start` on.
abbrev pub IsNew : Env → ℕ → Uuid → Type 0
IsNew env start id = (n : ℕ) × (start ≤ n) × (id ≡ env.uuid_new n)

-- What bcrypt makes of a password.
pub record IsPasswordHash (env : Env) (hash : String) : Type 0 where
  pub draw : ℕ
  pub password : String
  pub made : env.bcrypt_generate draw password ≡ ok hash

-- The HMAC of a code, and of a reset token, with the secret of this server.
pub record IsCodeHash (env : Env) (config : Config) (hash : String) : Type 0 where
  pub code : String
  pub made : hash ≡ hash_otp env code config.otp.secret

pub record IsTokenHash (env : Env) (config : Config) (hash : String) : Type 0 where
  pub token : String
  pub made : hash ≡ hash_reset_token env token config.reset_token.secret

-- What the services store from the draw `start` on.
abbrev pub stored : Env → Config → ℕ → Stored
stored env config start = record {
  id = IsNew env start;
  password = IsPasswordHash env;
  code = IsCodeHash env config;
  token = IsTokenHash env config;
}

module _ (env : Env) {config : Config} {start : ℕ} {P : Database → Type 0}
    (s : Preserved (stored env config start) P) where
  pub save_user-Keeps :
      (user : Domain.User)
      → IsPasswordHash env user.password
      → Keeps (Since start P) (Repository.User.save env user)
  unfolding Repository.User.save
  save_user-Keeps user hash =
      Keeps-map_error _ _ (Keeps-query env _ (λ now db v. s.save_user user db hash v))

  pub get_by_id-Keeps : (id : Uuid) → Keeps (Since start P) (Repository.User.get_by_id env id)
  unfolding Repository.User.get_by_id Users.get_user_by_id
  get_by_id-Keeps id = search (keeping, Keeps-optional, searched)

  pub get_by_email-Keeps :
      (email : String) → Keeps (Since start P) (Repository.User.get_by_email env email)
  unfolding Repository.User.get_by_email Users.get_by_email
  get_by_email-Keeps email = search (keeping, Keeps-optional, searched)

  pub update_password-Keeps :
      (id : Uuid) (password : String)
      → IsPasswordHash env password
      → Keeps (Since start P) (Repository.User.update_password env id password)
  unfolding Repository.User.update_password
  update_password-Keeps id password hash =
      Keeps-wrap_error _ _
        (Keeps-query env _ (λ now db v. s.update_user_password id password db hash v))

  pub save_refresh-Keeps :
      (token : Domain.RefreshToken)
      → IsNew env start token.id
      → Keeps (Since start P) (Repository.RefreshToken.save env token)
  unfolding Repository.RefreshToken.save
  save_refresh-Keeps token new =
      Keeps-wrap_error _ _ (Keeps-query env _ (λ now db v. s.save_refresh_token token db new v))

  pub consume_refresh-Keeps :
      (id : Uuid) → Keeps (Since start P) (Repository.RefreshToken.consume env id)
  unfolding Repository.RefreshToken.consume
  consume_refresh-Keeps id = read_row env _ _ _ (λ now db v. s.consume_refresh_token now id db v)

  pub delete_refresh-Keeps :
      (id : Uuid) → Keeps (Since start P) (Repository.RefreshToken.delete env id)
  unfolding Repository.RefreshToken.delete
  delete_refresh-Keeps id =
      Keeps-wrap_error _ _ (Keeps-query env _ (λ now db v. s.delete_refresh_token id db v))

  pub delete_by_user_id-Keeps :
      (id : Uuid) → Keeps (Since start P) (Repository.RefreshToken.delete_by_user_id env id)
  unfolding Repository.RefreshToken.delete_by_user_id
  delete_by_user_id-Keeps id =
      Keeps-wrap_error _ _
        (Keeps-query env _ (λ now db v. s.delete_refresh_tokens_by_user_id id db v))

  pub save_reset-Keeps :
      (token : Domain.ResetToken)
      → IsTokenHash env config token.token_hash
      → Keeps (Since start P) (Repository.ResetToken.save env token)
  unfolding Repository.ResetToken.save
  save_reset-Keeps token hash = Keeps-wrap_error _ _ (
      Keeps-query env _ (λ now db v.
        s.save_password_reset_token now token.id token.user_id token.token_hash token.expires_at db
          hash v))

  pub consume_reset-Keeps :
      (hash : String) → Keeps (Since start P) (Repository.ResetToken.consume env hash)
  unfolding Repository.ResetToken.consume
  consume_reset-Keeps hash =
      read_row env _ _ _ (λ now db v. s.consume_password_reset_token now hash db v)

module _ (env : Env) {config : Config} {start : ℕ} {P : Database → Type 0}
    (s : Preserved (stored env config start) P) (options : OtpOptions) where
  pub save_otp-Keeps :
      (otp : Domain.Otp)
      → IsNew env start otp.id
      → IsCodeHash env config otp.code
      → Keeps (Since start P) (Repository.Otp.save env options otp)
  unfolding Repository.Otp.save
  save_otp-Keeps otp new hash =
      Keeps-wrap_error _ _
        (Keeps-query env _ (λ now db v. s.save_otp_code (Repository.Otp.to_row otp) db new hash v))

  pub invalidate_by_identifier-Keeps :
      (identifier : String)
      → Keeps (Since start P) (Repository.Otp.invalidate_by_identifier env options identifier)
  unfolding Repository.Otp.invalidate_by_identifier
  invalidate_by_identifier-Keeps identifier =
      Keeps-wrap_error _ _
        (Keeps-query env _ (λ now db v. s.invalidate_otp_codes_by_identifier identifier db v))

  pub consume_otp-Keeps :
      (email hash : String) → Keeps (Since start P) (Repository.Otp.consume env options email hash)
  unfolding Repository.Otp.consume consume_otp_code
  consume_otp-Keeps email hash =
      read_row env "fetching otp code" (λ now. consume_otp_code now hash email)
        Repository.Otp.without_attempts (λ now db v. s.take_otp (is_login_code now hash email) db v)

  pub consume_by_challenge_id-Keeps :
      (id : Uuid) (hash : String)
      → Keeps (Since start P) (Repository.Otp.consume_by_challenge_id env options id hash)
  unfolding Repository.Otp.consume_by_challenge_id consume_otp_code_by_challenge_id
  consume_by_challenge_id-Keeps id hash =
      read_row env "fetching otp code by challenge id"
        (λ now. consume_otp_code_by_challenge_id now id hash (int16 options.max_attempts))
        Repository.Otp.with_attempts
        (λ now db v. s.take_otp (is_reset_code now id hash (int16 options.max_attempts)) db v)

  pub increase_attempts-Keeps :
      (id : Uuid) → Keeps (Since start P) (Repository.Otp.increase_attempts env options id)
  unfolding Repository.Otp.increase_attempts
  increase_attempts-Keeps id = Keeps-wrap_error _ _ (
      Keeps-query env _
        (λ now db v. s.increase_otp_attempts now id (int16 options.max_attempts) db v))
