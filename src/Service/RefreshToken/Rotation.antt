-- ===== src/Service/RefreshToken/Rotation.antt =====
-- `Refresh` of internal/service/refresh_token.go against the map of live sessions.
use go_auth_refresh_template.Base.{
  ℕ, ◌+◌, ◌≤◌, String, none, some, List, ◌≡◌, ◌≢◌, ◌∙◌, inl, inr, Option-cases, arith, ◌==◌, id_key,
  text_key, find, if◌then◌else◌,
}
use go_auth_refresh_template.Domain
use go_auth_refresh_template.Database.{Database}
use go_auth_refresh_template.Domain.{Uuid, Time, Config}
use go_auth_refresh_template.World.{Env, World, ok, err}
use go_auth_refresh_template.World.Laws.{UnlessOk}
use go_auth_refresh_template.Database.RefreshTokens.{
  is_live, consume_refresh_token, delete_refresh_token,
}
use go_auth_refresh_template.Database.RefreshTokens.Sessions.{
  session, session-find, session-update, session-delete,
}
use go_auth_refresh_template.Repository
use go_auth_refresh_template.Repository.RefreshToken.{consume}
use go_auth_refresh_template.Repository.Transaction.{exec}
use go_auth_refresh_template.Repository.Transaction.Laws.{exec_atomic}
use go_auth_refresh_template.Service.RefreshToken.{
  rotate_for, rotate, refresh, revoke, token_not_found,
}
use go_auth_refresh_template.Service.RefreshToken.Laws.{minted, Rotated, refresh-ok}

-- The documentation of google/uuid: `Parse` decodes what `String` returns.
abbrev pub ParsesBack : Env → Type 0
ParsesBack env = (id : Uuid) → env.uuid_parse (env.uuid_string id) ≡ some id

module _ (env : Env) (config : Config) where
  -- The map of sessions after a rotation: one more for the new token, none for the old one.
  session-Rotated :
      (now later : Time) (n : ℕ) (id : Uuid) (new : String) (db db' : Database) (j : Uuid)
      → (r : Rotated env config now n id new db db') → now ≤ later
      → session later db'.refresh_tokens j ≡ (
          if is_live later j (minted env config r.user n)
          then some r.user
          else if id == j
          then none
          else session later db.refresh_tokens j)
  session-Rotated now later n id new db db' j r h =
      ground (arith, r.stored, session-update now later id j db.refresh_tokens h)

  -- A refresh that succeeds had a live session of a user. At any time `t` from then on the old
  -- token has no session and the new one, whose id is another, is a session of that user as long as
  -- the minted row is live; every other session and every other table is as it was.
  pub refresh_rotates :
      (text : String) (w : World) (t : Time) (j : Uuid) {access new : String} {w' : World}
      → ParsesBack env
      → refresh env config text w ≡ (ok (access, new), w')
      → env.db_now w.draws ≤ t
      → (id user : Uuid) × (env.uuid_parse text ≡ some id)
        × (session (env.db_now w.draws) w.db.refresh_tokens id ≡ some user)
        × (new ≡ env.uuid_string (env.uuid_new (w.draws + 1 + 1)))
        × (id ≢ env.uuid_new (w.draws + 1 + 1))
        × (session t w'.db.refresh_tokens j ≡ (
            if is_live t j (minted env config user (w.draws + 1 + 1))
            then some user
            else if id == j
            then none
            else session t w.db.refresh_tokens j))
        × (w'.db ≡ record (w.db) { refresh_tokens = w'.db.refresh_tokens })
  refresh_rotates text w t j {access} {new} {w'} back h le =
      let (id, parsed, r) = refresh-ok env config text w h in
      let owner : r.old.user_id ≡ r.user = ground (arith, r.same_user, back r.old.user_id) in
      (
        id,
        r.user,
        parsed,
        rw (← owner) (session-find _ id w.db.refresh_tokens r.live),
        r.named,
        r.new_id,
        session-Rotated _ t _ id new w.db w'.db j r le,
        ground (arith, r.stored),
      )

  -- A text that names no live session is refused as unauthenticated.
  pub refresh-not_found :
      (text : String) (id : Uuid) (w : World)
      → env.uuid_parse text ≡ some id
      → find (is_live (env.db_now w.draws) id) w.db.refresh_tokens ≡ none
      → env.db_fault w.draws ≡ none
      → env.db_fault (w.draws + 1) ≡ none
      → (refresh env config text w).0 ≡ err token_not_found
  unfolding refresh exec rotate rotate_for consume consume_refresh_token
  refresh-not_found text id w parsed dead f₀ f₁ = ground arith

  -- A refresh that does not succeed changes no table.
  pub refresh_atomic :
      (text : String) (w : World)
      → UnlessOk (refresh env config text w).0 ((refresh env config text w).1.db ≡ w.db)
  unfolding refresh
  refresh_atomic text w = elim (Option-cases (env.uuid_parse text)) [
    | inl e ↦ ground arith
    | inr (id, e) ↦ ground (arith, exec_atomic env (rotate env config id) w)
  ]

  session-dead :
      (t : Time) (id : Uuid) (ts : List Domain.RefreshToken)
      → session t ts id ≡ none
      → find (is_live t id) ts ≡ none
  session-dead t id ts h = elim (Option-cases (find (is_live t id) ts)) [
    | inl e ↦ e
    | inr (row, e) ↦ ground (arith, session-find t id ts e)
  ]

  -- A refresh token serves once: after a refresh that succeeds, a refresh with the same text on the
  -- tables that the first one left, at no earlier time of the database server and with no fault of
  -- it, is refused as unauthenticated, and changes no table.
  pub refresh_once :
      (text : String) (w w₂ : World) {access new : String} {w' : World}
      → refresh env config text w ≡ (ok (access, new), w')
      → w₂.db ≡ w'.db
      → env.db_now w.draws ≤ env.db_now w₂.draws
      → env.db_fault w₂.draws ≡ none
      → env.db_fault (w₂.draws + 1) ≡ none
      → ((refresh env config text w₂).0 ≡ err token_not_found)
        × ((refresh env config text w₂).1.db ≡ w₂.db)
  refresh_once text w w₂ {access} {new} {w'} h same later f₀ f₁ =
      let (id, parsed, r) = refresh-ok env config text w h in
      let ended : session (env.db_now w₂.draws) w₂.db.refresh_tokens id ≡ none =
        rw same (session-Rotated _ _ _ id new w.db w'.db id r later ∙ ground (arith, r.new_id)) in
      let refused : (refresh env config text w₂).0 ≡ err token_not_found =
        refresh-not_found text id w₂ parsed (session-dead _ id w₂.db.refresh_tokens ended) f₀ f₁ in
      (refused, ground (arith, refresh_atomic text w₂))

  -- A `Revoke` that succeeds was given the text of a token id. At any time `t` afterwards that token
  -- has no session, and every other session and every other table is as it was.
  pub revoke_ends :
      (text : String) (w : World) (t : Time) (j : Uuid) {w' : World}
      → revoke env config text w ≡ (ok tt, w')
      → (id : Uuid) × (env.uuid_parse text ≡ some id)
        × (session t w'.db.refresh_tokens j
            ≡ (if id == j then none else session t w.db.refresh_tokens j))
        × (w'.db ≡ record (w.db) { refresh_tokens = w'.db.refresh_tokens })
  unfolding revoke delete_refresh_token Repository.RefreshToken.delete
  revoke_ends text w t j h = elim (Option-cases (env.uuid_parse text)) [
    | inl p ↦ ground arith
    | inr (id, p) ↦ (id, p, ground (arith, session-delete t id j w.db.refresh_tokens), ground arith)
  ]
