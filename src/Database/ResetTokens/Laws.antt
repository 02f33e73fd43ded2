-- ===== src/Database/ResetTokens/Laws.antt =====
-- When the statements on `password_reset_tokens` are carried out, and what they do then.
use go_auth_refresh_template.Base.{
  ◌≤◌, String, none, some, List, [], ◌∷◌, ◌≡◌, refl, inl, inr, Option-cases, arith, find, update,
  text_key,
}
use go_auth_refresh_template.Domain.{Time}
use go_auth_refresh_template.Database.{Database, PasswordResetToken, done}
use go_auth_refresh_template.Database.ResetTokens.{
  is_valid, mark_used, consume_password_reset_token,
}

-- A consumed reset token was unused and not expired, and is marked as used.
pub consume_password_reset_token-done :
    (now : Time) (hash : String) (db : Database) {row : PasswordResetToken} {db' : Database}
    → consume_password_reset_token now hash db ≡ done row db'
    → (t : PasswordResetToken) × (find (is_valid now hash) db.password_reset_tokens ≡ some t)
      × (row ≡ mark_used now t)
      × (db' ≡ record db {
        password_reset_tokens = update (is_valid now hash) (mark_used now) db.password_reset_tokens;
      })
unfolding consume_password_reset_token
consume_password_reset_token-done now hash db h =
    elim (Option-cases (find (is_valid now hash) db.password_reset_tokens)) [
      | inl e ↦ ground arith
      | inr (t, e) ↦ (t, e, ground arith, ground arith)
    ]

-- After its consumption no token of the hash is valid, at that time or later.
pub find-update_used :
    (now later : Time) (hash : String) (ts : List PasswordResetToken)
    → now ≤ later
    → find (is_valid later hash) (update (is_valid now hash) (mark_used now) ts) ≡ none
find-update_used now later hash [] h = refl
find-update_used now later hash (t ∷ ts) h = ground (arith, find-update_used now later hash ts h)
