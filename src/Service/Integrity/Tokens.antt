-- ===== src/Service/Integrity/Tokens.antt =====
-- What the methods of internal/service/jwt.go and refresh_token.go keep of the tables, and those of
-- auth.go and pkg/secure that make tokens and hashes.
use go_auth_refresh_template.Base.{ℕ, ◌+◌, refl, inl, inr, ◌==◌, text_key, String, arith}
use go_auth_refresh_template.Domain
use go_auth_refresh_template.Domain.{Uuid, Config, JwtOptions}
use go_auth_refresh_template.World.{Env, World, Action, pure, ◌>>=◌, ◌>>◌, raise, wrap_error}
use go_auth_refresh_template.World.Laws.{outcome-cases}
use go_auth_refresh_template.World.Invariants.{
  Keeps, Since, still, keeping, Keeps-raise, Keeps-pure, Keeps-if, Keeps->>=, Keeps-wrap_error,
  Keeps-maybe,
}
use go_auth_refresh_template.Secure.{hash_password}
use go_auth_refresh_template.Repository.Integrity.{
  IsNew, stored, IsPasswordHash, save_refresh-Keeps, consume_refresh-Keeps, delete_refresh-Keeps,
}
use go_auth_refresh_template.Repository.Transaction.Integrity.{Keeps-exec}
use go_auth_refresh_template.Repository
use go_auth_refresh_template.Repository.Transaction.{exec}
use go_auth_refresh_template.Database.{Database}
use go_auth_refresh_template.Database.Preserved.{Preserved}
use go_auth_refresh_template.Service.Jwt.{generate_access_token}
use go_auth_refresh_template.Service.RefreshToken.{
  new_token, generate_refresh_token, issue, rotate_for, rotate, refresh, revoke, malformed_token,
  parse_user_id,
}
use go_auth_refresh_template.Service.Auth.{issue_tokens}

module _ (env : Env) {start : ℕ} {P : Database → Type 0} where
  generate_access_token-Keeps :
      (options : JwtOptions) (user_id : Uuid)
      → Keeps (Since start P) (generate_access_token env options user_id)
  unfolding generate_access_token
  generate_access_token-Keeps options user_id = search keeping depth 12

  -- What goes on with a hash goes on with what bcrypt made.
  pub hashed->>= :
      {A : Type 0} (text password : String) (f : String → Action A)
      → ((hash : String) → IsPasswordHash env hash → Keeps (Since start P) (f hash))
      → Keeps (Since start P) (wrap_error text (hash_password env password) >>= f)
  unfolding hash_password
  hashed->>= text password f h = record {
    kept = λ w q.
        let w' : World = record w { draws = w.draws + 1 } in
        let later = still {P = P} w w' refl (omega arith) q in
        elim (outcome-cases (env.bcrypt_generate w.draws password)) [
          | inl (hash, e) ↦
              rw e
                ((h hash (record { draw = w.draws; password = password; made = e })).kept w' later)
          | inr (inl (x, e)) ↦ rw e later
          | inr (inr (x, e)) ↦ rw e later
        ];
  }

module _ (env : Env) (config : Config) {start : ℕ} {P : Database → Type 0}
    (s : Preserved (stored env config start) P) where
  -- The id of a token that is made is a new one.
  new_token->>= :
      {A : Type 0} (user_id : Uuid) (f : Domain.RefreshToken → Action A)
      → ((token : Domain.RefreshToken) → IsNew env start token.id → Keeps (Since start P) (f token))
      → Keeps (Since start P) (new_token env config user_id >>= f)
  unfolding new_token
  new_token->>= user_id f h = record {
    kept = λ w q.
        (h _ (w.draws, q.later, refl)).kept _
          (still w (record w { draws = w.draws + 1 + 1 + 1 }) refl (omega arith) q);
  }

  generate_refresh_token-Keeps :
      (user_id : Uuid) → Keeps (Since start P) (generate_refresh_token env config user_id)
  unfolding generate_refresh_token
  generate_refresh_token-Keeps user_id =
      new_token->>= user_id
        (λ token.
          wrap_error "saving refresh token to repository" (Repository.RefreshToken.save env token)
          >> pure token)
        (λ token new. search (keeping, save_refresh-Keeps) depth 12)

  issue-Keeps : (user_id : Uuid) → Keeps (Since start P) (issue env config user_id)
  unfolding issue
  issue-Keeps user_id =
      new_token->>= user_id
        (λ token.
          wrap_error "saving new refresh token to repository"
            (Repository.RefreshToken.save env token)
          >> (wrap_error "generating new access token"
                (generate_access_token env config.jwt token.user_id)
              >>= λ access. pure (access, env.uuid_string token.id)))
        (λ token new. search (keeping, save_refresh-Keeps, generate_access_token-Keeps) depth 12)

  parse_user_id-Keeps : (text : String) → Keeps (Since start P) (parse_user_id env config text)
  parse_user_id-Keeps text = Keeps-maybe (env.uuid_parse text) _ _ (Keeps-raise _) Keeps-pure

  rotate_for-Keeps : (user_id : String) → Keeps (Since start P) (rotate_for env config user_id)
  unfolding rotate_for
  rotate_for-Keeps user_id =
      Keeps-if (user_id == "") _ _ (Keeps-raise _)
        (Keeps->>= (parse_user_id env config user_id) _ (parse_user_id-Keeps user_id) issue-Keeps)

  rotate-Keeps : (id : Uuid) → Keeps (Since start P) (rotate env config id)
  unfolding rotate
  rotate-Keeps id = search (keeping, consume_refresh-Keeps, rotate_for-Keeps) depth 12

  pub refresh-Keeps : (text : String) → Keeps (Since start P) (refresh env config text)
  unfolding refresh
  refresh-Keeps text =
      Keeps-maybe (env.uuid_parse text) (raise malformed_token)
        (λ id. exec env (rotate env config id)) (Keeps-raise _)
        (λ id. Keeps-exec env _ (rotate-Keeps id))

  pub revoke-Keeps : (text : String) → Keeps (Since start P) (revoke env config text)
  unfolding revoke
  revoke-Keeps text =
      Keeps-maybe (env.uuid_parse text) (raise malformed_token)
        (λ id. wrap_error "deleting refresh token" (Repository.RefreshToken.delete env id))
        (Keeps-raise _) (λ id. Keeps-wrap_error _ _ (delete_refresh-Keeps env s id))

  pub issue_tokens-Keeps :
      (user_id : Uuid) → Keeps (Since start P) (issue_tokens env config user_id)
  unfolding issue_tokens
  issue_tokens-Keeps user_id =
      search (keeping, generate_access_token-Keeps, generate_refresh_token-Keeps) depth 12
