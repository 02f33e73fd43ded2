-- ===== src/Service/RefreshToken/Serves.antt =====
-- When a call of `Refresh` of internal/service/refresh_token.go succeeds.
use go_auth_refresh_template.Base.{
  ℕ, ◌+◌, String, true, false, some, none, any, any-update, ◌≡◌, ◌≢◌, refl, arith, ◌==◌, ==_iff,
  id_key, text_key, update,
}
use go_auth_refresh_template.Domain.{Uuid, Time, Config}
use go_auth_refresh_template.Database.RefreshTokens.{
  is_live, expire, consume_refresh_token, save_refresh_token, has_user,
}
use go_auth_refresh_template.Database.RefreshTokens.Sessions.{session, find-session}
use go_auth_refresh_template.World.{Env, World, ok}
use go_auth_refresh_template.Repository.RefreshToken.{consume, save}
use go_auth_refresh_template.Repository.Common.Laws.{stepped}
use go_auth_refresh_template.Repository.Transaction.{exec}
use go_auth_refresh_template.Repository.Transaction.Laws.{begun}
use go_auth_refresh_template.Service.Jwt.{generate_access_token}
use go_auth_refresh_template.Service.Jwt.RoundTrip.{claims_of}
use go_auth_refresh_template.Service.RefreshToken.{new_token, issue, rotate_for, rotate, refresh}

module _ (env : Env) (config : Config) where
  -- The consumption of a live token, in a transaction.
  pub rotate-live :
      (id user : Uuid) (t : Time) (w : World)
      → w.tx_now ≡ some t
      → env.db_fault w.draws ≡ none
      → session t w.db.refresh_tokens id ≡ some user
      → rotate env config id w
        ≡ rotate_for env config (env.uuid_string user) (
            stepped w (record (w.db) {
              refresh_tokens = update (is_live t id) (expire t) w.db.refresh_tokens;
            }))
  unfolding rotate consume consume_refresh_token
  rotate-live id user t w tx f live =
      let (row, found, owner) = find-session t id user w.db.refresh_tokens live in ground arith

  issue-serves :
      (user : Uuid) (w : World) {access : String}
      → has_user user w.db ≡ true
      → any (λ t. t.id == env.uuid_new w.draws) w.db.refresh_tokens ≡ false
      → ((n : ℕ) → env.db_fault n ≡ none)
      → env.jwt_sign config.jwt.private_key (claims_of env config.jwt user (w.draws + 4))
        ≡ ok access
      → (issue env config user w).0 ≡ ok (access, env.uuid_string (env.uuid_new w.draws))
  unfolding issue new_token save save_refresh_token generate_access_token
  issue-serves user w known new f signed = ground (arith, f (w.draws + 1 + 1 + 1))

  -- Whoever has a session is served: where the database has no fault, uuid.Parse decodes what String
  -- returns, which is not empty, the user of the session exists, the new id is in no row and the access
  -- token can be signed, a refresh with the id of the session answers that access token and the new id.
  pub refresh_serves :
      (text : String) (w : World) {id user : Uuid} {access : String}
      → env.uuid_parse text ≡ some id
      → session (env.db_now w.draws) w.db.refresh_tokens id ≡ some user
      → has_user user w.db ≡ true
      → any (λ t. t.id == env.uuid_new (w.draws + 2)) w.db.refresh_tokens ≡ false
      → ((n : ℕ) → env.db_fault n ≡ none)
      → ((u : Uuid) → (env.uuid_parse (env.uuid_string u) ≡ some u) × (env.uuid_string u ≢ ""))
      → env.jwt_sign config.jwt.private_key (claims_of env config.jwt user (w.draws + 6))
        ≡ ok access
      → (refresh env config text w).0 ≡ ok (access, env.uuid_string (env.uuid_new (w.draws + 2)))
  unfolding refresh exec rotate_for
  refresh_serves text w {id} {user} {access} parsed live known new f decodes signed =
      let t = env.db_now w.draws in
      let v =
        stepped (begun env w) (record (w.db) {
          refresh_tokens = update (is_live t id) (expire t) w.db.refresh_tokens;
        }) in
      let unused : any (λ s. s.id == env.uuid_new (w.draws + 2)) v.db.refresh_tokens ≡ false =
        rw
          (any-update (λ s. s.id == env.uuid_new (w.draws + 2)) (is_live t id) (expire t)
            w.db.refresh_tokens (λ s. refl))
          new in
      let issued = issue-serves user v {access = access} known (ground arith) f (ground arith) in
      let ran = rotate-live id user t (begun env w) refl (f (w.draws + 1)) live in
      let last = f (issue env config user v).1.draws in
      let (parses, full) = decodes user in
      ground (arith, f w.draws, ==_iff (env.uuid_string user) "")
