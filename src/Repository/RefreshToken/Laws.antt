-- ===== src/Repository/RefreshToken/Laws.antt =====
-- What a call of the refresh-token repository that succeeds has done to the tables.
use go_auth_refresh_template.Base.{
  String, Option, none, some, ◌∷◌, ◌≡◌, ◌≢◌, ◌∙◌, arith, find, update, delete, any, false, ◌==◌,
  id_key,
}
use go_auth_refresh_template.Domain
use go_auth_refresh_template.Domain.{Uuid}
use go_auth_refresh_template.Database.RefreshTokens.{
  is_live, expire, consume_refresh_token, save_refresh_token, delete_refresh_tokens_by_user_id,
}
use go_auth_refresh_template.Database.RefreshTokens.Laws.{
  consume_refresh_token-done, save_refresh_token-done,
}
use go_auth_refresh_template.World.{Env, World, ok, pure, sql_now, query}
use go_auth_refresh_template.World.Laws.{>>=-ok, wrap_error-ok, query-ok}
use go_auth_refresh_template.Repository.Common.{optional}
use go_auth_refresh_template.Repository.Common.Laws.{stepped, Found, optional-query-ok}
use go_auth_refresh_template.Repository.RefreshToken.{owner_text, consume, save, delete_by_user_id}

module _ (env : Env) (w : World) where
  -- The owner's text is not empty, so a token was found.
  consumed_owner :
      (id : Uuid) (found : Option Domain.RefreshToken) {w' : World}
      → Found env (λ now. consume_refresh_token now id) w found w'
      → owner_text env found ≢ ""
      → (t : Domain.RefreshToken) × (find (is_live (sql_now env w) id) w.db.refresh_tokens ≡ some t)
        × (owner_text env found ≡ env.uuid_string t.user_id)
        × (w'
            ≡ stepped w (record (w.db) {
              refresh_tokens =
                  update (is_live (sql_now env w) id) (expire (sql_now env w)) w.db.refresh_tokens;
            }))
  consumed_owner id none h ne = ground arith
  consumed_owner id (some row) h ne =
      let (t, live, expired, changed) = consume_refresh_token-done (sql_now env w) id w.db h.0 in
      (t, live, ground arith, ground arith)

  -- A consumed token was live, and has expired now.
  pub consume-ok :
      (id : Uuid) (user : String) {w' : World}
      → consume env id w ≡ (ok user, w')
      → user ≢ ""
      → (t : Domain.RefreshToken) × (find (is_live (sql_now env w) id) w.db.refresh_tokens ≡ some t)
        × (user ≡ env.uuid_string t.user_id)
        × (w'
            ≡ stepped w (record (w.db) {
              refresh_tokens =
                  update (is_live (sql_now env w) id) (expire (sql_now env w)) w.db.refresh_tokens;
            }))
  unfolding consume
  consume-ok id user {w'} h ne =
      let statement = λ (now : Domain.Time). consume_refresh_token now id in
      let text : String = "consuming refresh token" in
      let (found, w₁, ran, rest) =
        >>=-ok (optional text (query env statement)) (λ o. pure (owner_text env o)) w h in
      let same : user ≡ owner_text env found = ground arith in
      let same_world : w' ≡ w₁ = ground arith in
      let (t, live, owner, changed) =
        consumed_owner id found (optional-query-ok env statement w text found ran) (ground arith) in
      (t, live, same ∙ owner, same_world ∙ changed)

  -- A saved token is a new row, with a new id.
  pub save-ok :
      (token : Domain.RefreshToken) {w' : World}
      → save env token w ≡ (ok tt, w')
      → (any (λ t. t.id == token.id) w.db.refresh_tokens ≡ false)
        × (w' ≡ stepped w (record (w.db) { refresh_tokens = token ∷ w.db.refresh_tokens }))
  unfolding save
  save-ok token {w'} h =
      let statement = λ (_ : Domain.Time). save_refresh_token token in
      let text : String = "saving refresh token" in
      let (ran, stored) = query-ok env statement w (wrap_error-ok text (query env statement) w h) in
      let (unused, _, changed) = save_refresh_token-done token w.db ran in (unused, ground arith)

  -- All rows of the user are gone.
  pub delete_by_user_id-ok :
      (user : Uuid) {w' : World}
      → delete_by_user_id env user w ≡ (ok tt, w')
      → w'
        ≡ stepped w
            (record (w.db) { refresh_tokens = delete (λ t. t.user_id == user) w.db.refresh_tokens })
  unfolding delete_by_user_id delete_refresh_tokens_by_user_id
  delete_by_user_id-ok user h = ground arith
