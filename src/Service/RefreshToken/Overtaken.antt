-- ===== src/Service/RefreshToken/Overtaken.antt =====
-- Two overlapping calls of `Refresh` of internal/service/refresh_token.go with one token.
use go_auth_refresh_template.Base.{
  ◌+◌, ◌<◌, String, none, some, List, [], ◌∷◌, ◌≡◌, ◌≢◌, refl, arith, id_key, update, All, text_key,
}
use go_auth_refresh_template.Domain
use go_auth_refresh_template.Domain.{Uuid, Time, Config}
use go_auth_refresh_template.Database.RefreshTokens.{is_live, expire}
use go_auth_refresh_template.Database.RefreshTokens.Sessions.{session, session-find, DistinctIds}
use go_auth_refresh_template.World.{Env, World, ok, next_draw}
use go_auth_refresh_template.Repository.Common.Laws.{stepped}
use go_auth_refresh_template.Service.RefreshToken.Serves.{rotate-live}
use go_auth_refresh_template.Repository.Transaction.{finish}
use go_auth_refresh_template.Repository.Transaction.Overlap.{exec_around}
use go_auth_refresh_template.Service.RefreshToken.{rotate_for, rotate, refresh}
use go_auth_refresh_template.Service.RefreshToken.Laws.{refresh-ok}

session-absent :
    (now : Time) (id : Uuid) (ts : List Domain.RefreshToken)
    → All (λ s. s.id ≢ id) ts
    → session now ts id ≡ none
session-absent now id [] h = refl
session-absent now id (t ∷ ts) h = ground (arith, session-absent now id ts h.1)

-- A token that was consumed at `now` is live for a statement whose NOW() is earlier.
session-overtaken :
    (earlier now : Time) (id user : Uuid) (ts : List Domain.RefreshToken)
    → earlier < now
    → DistinctIds ts
    → session now ts id ≡ some user
    → session earlier (update (is_live now id) (expire now) ts) id ≡ some user
session-overtaken earlier now id user [] lt d h = ground arith
session-overtaken earlier now id user (t ∷ ts) lt d h =
    ground (arith, session-overtaken earlier now id user ts lt d.1, session-absent now t.id ts d.0)

module _ (env : Env) (config : Config) where
  -- Two refreshes with the same token where the second's transaction begins first and is overtaken by
  -- the first, which succeeds: no two rows having the same id, the clock of the database server
  -- having advanced between the two, and the database having no fault. The second is not refused: it
  -- finds the token live, since its expiry was set to a time after its own NOW(), and it goes on to
  -- issue tokens to the same user.
  pub refresh_overtaken :
      (text : String) (w : World) (id : Uuid) {access new : String} {w' : World}
      → DistinctIds w.db.refresh_tokens
      → env.uuid_parse text ≡ some id
      → env.db_fault w.draws ≡ none
      → refresh env config text (next_draw w) ≡ (ok (access, new), w')
      → env.db_now w.draws < env.db_now (w.draws + 1)
      → env.db_fault w'.draws ≡ none
      → (user : Uuid) × (session (env.db_now (w.draws + 1)) w.db.refresh_tokens id ≡ some user)
        × (session (env.db_now w.draws) w'.db.refresh_tokens id ≡ some user)
        × (exec_around env (rotate env config id) (λ v. (refresh env config text v).1) w
            ≡ finish env w' (
                rotate_for env config (env.uuid_string user) (
                  stepped
                    (record w' { tx_now = some (env.db_now w.draws) })
                    (record (w'.db) {
                      refresh_tokens =
                          update
                            (is_live (env.db_now w.draws) id)
                            (expire (env.db_now w.draws))
                            w'.db.refresh_tokens;
                    }))))
  unfolding exec_around
  refresh_overtaken text w id {access} {new} {w'} distinct parsed f h advanced f₂ =
      let (id', parsed', r) = refresh-ok env config text (next_draw w) h in
      let same : id' ≡ id = ground arith in
      let now = env.db_now (w.draws + 1) in
      let earlier = env.db_now w.draws in
      let user = r.old.user_id in
      let live : session now w.db.refresh_tokens id ≡ some user =
        rw same at (session-find now id' w.db.refresh_tokens {t = r.old} r.live) in
      let still =
        session-overtaken earlier now id user w.db.refresh_tokens advanced distinct live in
      let left : session earlier w'.db.refresh_tokens id ≡ some user =
        ground (arith, r.stored, r.new_id, still) in
      let overtaken = record w' { tx_now = some earlier } in
      (
        user,
        live,
        left,
        ground (arith, rotate-live env config id user earlier overtaken refl f₂ left),
      )
