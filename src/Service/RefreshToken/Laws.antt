-- ===== src/Service/RefreshToken/Laws.antt =====
-- Rotation: what a refresh that succeeds has done, and that a token serves once.
use go_auth_refresh_template.Base.{
  ℕ, ◌+◌, String, any, false, some, ◌∷◌, ◌≡◌, ◌≢◌, inl, inr, Option-cases, arith, ◌==◌, id_key,
  text_key, ==_iff, find, update,
}
use go_auth_refresh_template.Domain
use go_auth_refresh_template.Domain.{Uuid, Time, Config}
use go_auth_refresh_template.Database.{Database}
use go_auth_refresh_template.Database.RefreshTokens.Sessions.{find-any}
use go_auth_refresh_template.World.{Env, World, ok, sql_now, wrap_error}
use go_auth_refresh_template.World.Laws.{>>=-ok, wrap_error-ok}
use go_auth_refresh_template.Database.RefreshTokens.{is_live, expire}
use go_auth_refresh_template.Repository
use go_auth_refresh_template.Repository.RefreshToken.Laws.{consume-ok, save-ok}
use go_auth_refresh_template.Repository.Transaction.Laws.{begun, exec-ok}
use go_auth_refresh_template.Service.Jwt.{generate_access_token}
use go_auth_refresh_template.Service.RefreshToken.{issue, rotate_for, rotate, refresh}

module _ (env : Env) (config : Config) where
  generate_access_token_db :
      (user : Uuid) (w : World) → (generate_access_token env config.jwt user w).1.db ≡ w.db
  unfolding generate_access_token
  generate_access_token_db user w = ground arith

  -- The token that `new_token` makes of the user from the draw `n` on.
  abbrev pub minted : Uuid → ℕ → Domain.RefreshToken
  minted user n = record {
    id = env.uuid_new n;
    user_id = user;
    created_at = env.now (n + 1);
    expires_at = env.now (n + 1 + 1) + config.refresh_token.duration;
  }

  abbrev after_minted : World → World
  after_minted w = record w { draws = w.draws + 1 + 1 + 1 }

  -- Issued tokens: one row more, with a new id.
  pub issue-ok :
      (user : Uuid) (w : World) {access new : String} {w' : World}
      → issue env config user w ≡ (ok (access, new), w')
      → (new ≡ env.uuid_string (env.uuid_new w.draws))
        × (any (λ t. t.id == env.uuid_new w.draws) w.db.refresh_tokens ≡ false)
        × (w'.db ≡ record (w.db) { refresh_tokens = minted user w.draws ∷ w.db.refresh_tokens })
  unfolding issue
  issue-ok user w h =
      let row = minted user w.draws in
      let save = Repository.RefreshToken.save env row (after_minted w) in
      ground (
        arith,
        save-ok env (after_minted w) row {w' = save.1},
        generate_access_token_db user save.1,
      )

  rotate_for-ok :
      (user_text : String) (w : World) {access new : String} {w' : World}
      → rotate_for env config user_text w ≡ (ok (access, new), w')
      → (user_text ≢ "")
        × (user : Uuid) × (env.uuid_parse user_text ≡ some user)
        × (issue env config user w ≡ (ok (access, new), w'))
  unfolding rotate_for
  rotate_for-ok user_text w h = elim (Option-cases (env.uuid_parse user_text)) [
    | inl e ↦ ground (arith, ==_iff user_text "")
    | inr (user, e) ↦ (ground (arith, ==_iff user_text ""), user, e, ground arith)
  ]

  -- What a rotation from the draw `n` on, at the time `now`, does to the rows of `db`.
  pub record Rotated (now : Time) (n : ℕ) (id : Uuid) (new : String) (db db' : Database)
      : Type 0 where
    pub old : Domain.RefreshToken
    pub user : Uuid
    pub live : find (is_live now id) db.refresh_tokens ≡ some old
    pub same_user : env.uuid_parse (env.uuid_string old.user_id) ≡ some user
    pub named : new ≡ env.uuid_string (env.uuid_new n)
    pub new_id : id ≢ env.uuid_new n
    pub stored : db' ≡ record db {
      refresh_tokens = minted user n ∷ update (is_live now id) (expire now) db.refresh_tokens;
    }

  -- The rotation in the transaction: the consumed token was live, and the new one has its user.
  pub rotate-ok :
      (id : Uuid) (w : World) {access new : String} {w' : World}
      → rotate env config id w ≡ (ok (access, new), w')
      → Rotated (sql_now env w) (w.draws + 1) id new w.db w'.db
  unfolding rotate
  rotate-ok id w {access} {new} {w'} h =
      let consume = Repository.RefreshToken.consume env id in
      let text : String = "fetching refresh token from repository" in
      let (user_text, w₁, ran, rest) =
        >>=-ok (wrap_error text consume) (rotate_for env config) w h in
      let (nonempty, user, parsed, issued) = rotate_for-ok user_text w₁ rest in
      let (t, live, owner, changed) =
        consume-ok env w id user_text (wrap_error-ok text consume w ran) nonempty in
      let (named, unused, stored) = issue-ok user w₁ issued in
      record {
        old = t;
        user = user;
        live = live;
        same_user = rw (← owner) parsed;
        named = ground arith;
        new_id =
            find-any (sql_now env w) id (env.uuid_new (w.draws + 1)) (is_live (sql_now env w) id)
              w.db.refresh_tokens live (ground arith);
        stored = ground arith;
      }

  -- A refresh that succeeds has rotated the token that its text denotes.
  pub refresh-ok :
      (text : String) (w : World) {access new : String} {w' : World}
      → refresh env config text w ≡ (ok (access, new), w')
      → (id : Uuid) × (env.uuid_parse text ≡ some id)
        × Rotated (env.db_now w.draws) (w.draws + 1 + 1) id new w.db w'.db
  unfolding refresh
  refresh-ok text w {access} {new} {w'} h = elim (Option-cases (env.uuid_parse text)) [
    | inl e ↦ ground arith
    | inr (id, e) ↦
        let (w₁, ran, committed, _, _) =
          exec-ok env (rotate env config id) w {a = (access, new)} {w' = w'} (ground arith) in
        (id, e, rw committed (rotate-ok id (begun env w) ran))
  ]
