-- ===== src/Service/Auth/Login.antt =====
-- `Login` and `LoginWithOtp` of internal/service/auth.go: what a login that succeeds has done.
use go_auth_refresh_template.Base.{
  ◌+◌, String, some, any, true, false, ◌∷◌, ◌≡◌, inl, inr, Option-cases, Bool-cases, arith, ◌==◌,
  id_key, text_key, find, if◌then◌else◌,
}
use go_auth_refresh_template.Domain
use go_auth_refresh_template.Domain.{Uuid, Time, Config}
use go_auth_refresh_template.Database.RefreshTokens.{is_live}
use go_auth_refresh_template.Database.RefreshTokens.Sessions.{session}
use go_auth_refresh_template.World.{Env, World, ok, wrap_error, pure, ◌>>=◌}
use go_auth_refresh_template.World.Laws.{>>=-ok, wrap_error-ok}
use go_auth_refresh_template.Secure.{check_password}
use go_auth_refresh_template.Repository
use go_auth_refresh_template.Repository.User.Laws.{get_by_email_found}
use go_auth_refresh_template.Repository.RefreshToken.Laws.{save-ok}
use go_auth_refresh_template.Service.Jwt.{generate_access_token}
use go_auth_refresh_template.Service.Jwt.RoundTrip.{claims_of, generate_access_token-ok}
use go_auth_refresh_template.Service.RefreshToken.{new_token, generate_refresh_token}
use go_auth_refresh_template.Service.RefreshToken.Laws.{minted}
use go_auth_refresh_template.Service.Auth.{issue_tokens, login_as, login}

module _ (env : Env) (config : Config) where
  -- The tokens that are issued from the draw `n` on to a user, and the table of refresh tokens.
  abbrev pub Issued : Uuid → String → String → World → World → Type 0
  Issued user access refresh w w' =
      (env.jwt_sign config.jwt.private_key (claims_of env config.jwt user w.draws) ≡ ok access)
      × (refresh ≡ env.uuid_string (env.uuid_new (w.draws + 3)))
      × (any (λ t. t.id == env.uuid_new (w.draws + 3)) w.db.refresh_tokens ≡ false)
      × (w'.db ≡ record (w.db) {
        refresh_tokens = minted env config user (w.draws + 3) ∷ w.db.refresh_tokens;
      })

  generate_refresh_token-ok :
      (user : Uuid) (w : World) {token : Domain.RefreshToken} {w' : World}
      → generate_refresh_token env config user w ≡ (ok token, w')
      → (token ≡ minted env config user w.draws)
        × (any (λ t. t.id == env.uuid_new w.draws) w.db.refresh_tokens ≡ false)
        × (w'.db ≡ record (w.db) {
          refresh_tokens = minted env config user w.draws ∷ w.db.refresh_tokens;
        })
  unfolding generate_refresh_token new_token
  generate_refresh_token-ok user w h =
      let w₁ : World = record w { draws = w.draws + 1 + 1 + 1 } in
      let row = minted env config user w.draws in
      ground (arith, save-ok env w₁ row {w' = (Repository.RefreshToken.save env row w₁).1})

  pub issue_tokens-ok :
      (user : Uuid) (w : World) {access refresh : String} {w' : World}
      → issue_tokens env config user w ≡ (ok (access, refresh), w')
      → Issued user access refresh w w'
  unfolding issue_tokens
  issue_tokens-ok user w {access} {refresh} {w'} h =
      let sign = generate_access_token env config.jwt user in
      let store = generate_refresh_token env config user in
      let (token, w₁, signed, rest) =
        >>=-ok (wrap_error "generating access token" sign)
          (λ access_token. do
            refresh_token ← wrap_error "generating refresh token" store
            pure (access_token, env.uuid_string refresh_token.id))
          w h in
      let (claims, step) =
        generate_access_token-ok env config.jwt user w (wrap_error-ok _ sign w signed) in
      let (row, w₂, saved, last) =
        >>=-ok (wrap_error "generating refresh token" store)
          (λ refresh_token. pure (token, env.uuid_string refresh_token.id)) w₁ rest in
      let (is, new, stored) = generate_refresh_token-ok user w₁ (wrap_error-ok _ store w₁ saved) in
      (ground arith, ground arith, ground arith, ground arith)

  -- A login that succeeds was given the email and the password of a user. It answers an access token,
  -- signed for this user, and the id of a refresh token that no row had before; from then on this id is
  -- a session of the user while its row is live. Every other session, at any time, and every other
  -- table is as it was.
  pub login_opens_session :
      (email password : String) (w : World) (t : Time) (j : Uuid) {access refresh : String}
      {w' : World}
      → login env config email password w ≡ (ok (access, refresh), w')
      → (user : Domain.User) × (find (λ u. u.email == email) w.db.users ≡ some user)
        × (check_password env user.password password ≡ true)
        × (env.jwt_sign config.jwt.private_key (claims_of env config.jwt user.id (w.draws + 1))
            ≡ ok access)
        × (refresh ≡ env.uuid_string (env.uuid_new (w.draws + 4)))
        × (any (λ r. r.id == env.uuid_new (w.draws + 4)) w.db.refresh_tokens ≡ false)
        × (session t w'.db.refresh_tokens j ≡ (
            if is_live t j (minted env config user.id (w.draws + 4))
            then some user.id
            else session t w.db.refresh_tokens j))
        × (w'.db ≡ record (w.db) { refresh_tokens = w'.db.refresh_tokens })
  unfolding login
  login_opens_session email password w t j {access} {refresh} {w'} h =
      let search = Repository.User.get_by_email env email in
      let (found, w₁, ran, rest) =
        >>=-ok (wrap_error "fetching user by email" search) (login_as env config password) w h in
      elim (Option-cases found) [
        | inl absent ↦ ground arith
        | inr (user, is) ↦
            let (known, step) =
              get_by_email_found env w {w' = w₁} email user
                (rw is at (wrap_error-ok "fetching user by email" search w ran)) in
            elim (Bool-cases (check_password env user.password password)) [
              | inl right ↦
                  let (signed, named, new, stored) =
                    issue_tokens-ok user.id w₁ {access = access} {refresh = refresh} {w' = w'}
                      (ground arith) in
                  (
                    user,
                    known,
                    right,
                    ground arith,
                    ground arith,
                    ground arith,
                    ground arith,
                    ground arith,
                  )
              | inr wrong ↦ ground arith
            ]
      ]
