-- ===== src/Database/RefreshTokens/Laws.antt =====
-- When the statements on `refresh_tokens` are carried out, and what they do then.
use go_auth_refresh_template.Base.{
  some, ◌∷◌, ◌≡◌, inl, inr, Option-cases, arith, true, false, find, update, any, ◌==◌, id_key,
}
use go_auth_refresh_template.Domain.{Uuid, Time, RefreshToken}
use go_auth_refresh_template.Database.{Database, done}
use go_auth_refresh_template.Database.RefreshTokens.{
  is_live, expire, has_user, consume_refresh_token, save_refresh_token,
}

-- A consumed token was live, and expires at once.
pub consume_refresh_token-done :
    (now : Time) (id : Uuid) (db : Database) {row : RefreshToken} {db' : Database}
    → consume_refresh_token now id db ≡ done row db'
    → (t : RefreshToken) × (find (is_live now id) db.refresh_tokens ≡ some t)
      × (row ≡ expire now t)
      × (db'
          ≡ record db { refresh_tokens = update (is_live now id) (expire now) db.refresh_tokens })
unfolding consume_refresh_token
consume_refresh_token-done now id db h =
    elim (Option-cases (find (is_live now id) db.refresh_tokens)) [
      | inl e ↦ ground arith
      | inr (t, e) ↦ (t, e, ground arith, ground arith)
    ]

-- A saved token had a new id and a known user.
pub save_refresh_token-done :
    (row : RefreshToken) (db : Database) {db' : Database}
    → save_refresh_token row db ≡ done tt db'
    → (any (λ t. t.id == row.id) db.refresh_tokens ≡ false)
      × (has_user row.user_id db ≡ true)
      × (db' ≡ record db { refresh_tokens = row ∷ db.refresh_tokens })
unfolding save_refresh_token
save_refresh_token-done row db h = ground arith
