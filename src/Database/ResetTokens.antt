-- ===== src/Database/ResetTokens.antt =====
-- The statements of internal/infra/database/sqlc/password_reset_tokens.sql.go.
pub mod Unique
pub mod Laws
use go_auth_refresh_template.Base.{
  String, Bool, true, false, Option, none, some, ◌==◌, id_key, text_key, ◌||◌, ◌&&◌, ◌∷◌, any, find,
  update, delete, ltb, not, if◌then◌else◌,
}
use go_auth_refresh_template.Domain.{Uuid, Time}
use go_auth_refresh_template.Database.{
  Database, PasswordResetToken, Reply, done, refused, unique_violation, foreign_key_violation,
  err_no_rows,
}
use go_auth_refresh_template.Database.Users.{answer_one}
use go_auth_refresh_template.Database.RefreshTokens.{has_user}

-- The insertion leaves `used_at` NULL and takes the default NOW() for `created_at`.
unfoldable pub save_password_reset_token :
    Time → Uuid → Uuid → String → Time → Database → Reply (Unit {0})
save_password_reset_token now id user_id token_hash expires_at db =
    let row : PasswordResetToken = record {
      id = id;
      user_id = user_id;
      token_hash = token_hash;
      expires_at = expires_at;
      used_at = none;
      created_at = now;
    } in
    if any (λ t. t.id == id || t.token_hash == token_hash) db.password_reset_tokens
    then refused unique_violation
    else if not (has_user user_id db)
    then refused foreign_key_violation
    else done tt (record db { password_reset_tokens = row ∷ db.password_reset_tokens })

abbrev pub is_null : Option Time → Bool
is_null none = true
is_null (some _) = false

-- `token_hash = $1 AND used_at IS NULL AND expires_at > NOW()`
abbrev pub is_valid : Time → String → PasswordResetToken → Bool
is_valid now token_hash t = t.token_hash == token_hash && is_null t.used_at && ltb now t.expires_at

abbrev pub mark_used : Time → PasswordResetToken → PasswordResetToken
mark_used now t = record t { used_at = some now }

unfoldable pub consume_password_reset_token : Time → String → Database → Reply PasswordResetToken
consume_password_reset_token now token_hash db =
    elim (find (is_valid now token_hash) db.password_reset_tokens) [
      | none ↦ refused err_no_rows
      | some t ↦ done (mark_used now t) (record db {
        password_reset_tokens =
            update (is_valid now token_hash) (mark_used now) db.password_reset_tokens;
      })
    ]

unfoldable pub get_valid_password_reset_token : Time → String → Database → Reply PasswordResetToken
get_valid_password_reset_token now token_hash db =
    answer_one (find (is_valid now token_hash) db.password_reset_tokens) db

unfoldable pub delete_password_reset_tokens_by_id : Uuid → Database → Reply (Unit {0})
delete_password_reset_tokens_by_id id db =
    done tt
      (record db { password_reset_tokens = delete (λ t. t.id == id) db.password_reset_tokens })

unfoldable pub delete_password_reset_tokens_by_user_id : Uuid → Database → Reply (Unit {0})
delete_password_reset_tokens_by_user_id user_id db = done tt (record db {
  password_reset_tokens = delete (λ t. t.user_id == user_id) db.password_reset_tokens;
})
