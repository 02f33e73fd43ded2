-- ===== src/Database/RefreshTokens.antt =====
-- The statements of internal/infra/database/sqlc/refresh_token.sql.go on `refresh_tokens`. `now`
-- is the value of NOW().
pub mod Dead
pub mod Laws
pub mod Sessions
use go_auth_refresh_template.Base.{
  Bool, none, some, ◌==◌, id_key, text_key, ◌&&◌, ◌∷◌, any, find, update, delete, ltb, not,
  if◌then◌else◌,
}
use go_auth_refresh_template.Domain.{Uuid, Time, RefreshToken}
use go_auth_refresh_template.Database.{
  Database, Reply, done, refused, unique_violation, foreign_key_violation, err_no_rows,
}
use go_auth_refresh_template.Database.Users.{answer_one}

abbrev pub has_user : Uuid → Database → Bool
has_user id db = any (λ u. u.id == id) db.users

unfoldable pub save_refresh_token : RefreshToken → Database → Reply (Unit {0})
save_refresh_token row db =
    if any (λ t. t.id == row.id) db.refresh_tokens
    then refused unique_violation
    else if not (has_user row.user_id db)
    then refused foreign_key_violation
    else done tt (record db { refresh_tokens = row ∷ db.refresh_tokens })

-- `id = $1 AND expires_at > NOW()`
abbrev pub is_live : Time → Uuid → RefreshToken → Bool
is_live now id t = t.id == id && ltb now t.expires_at

unfoldable pub get_refresh_token_by_id : Time → Uuid → Database → Reply RefreshToken
get_refresh_token_by_id now id db = answer_one (find (is_live now id) db.refresh_tokens) db

abbrev pub expire : Time → RefreshToken → RefreshToken
expire now t = record t { expires_at = now }

-- `UPDATE … SET expires_at = NOW() … RETURNING …`: the row as it is after the update.
unfoldable pub consume_refresh_token : Time → Uuid → Database → Reply RefreshToken
consume_refresh_token now id db = elim (find (is_live now id) db.refresh_tokens) [
  | none ↦ refused err_no_rows
  | some t ↦
      done (expire now t)
        (record db { refresh_tokens = update (is_live now id) (expire now) db.refresh_tokens })
]

unfoldable pub delete_refresh_token : Uuid → Database → Reply (Unit {0})
delete_refresh_token id db =
    done tt (record db { refresh_tokens = delete (λ t. t.id == id) db.refresh_tokens })

unfoldable pub delete_refresh_tokens_by_user_id : Uuid → Database → Reply (Unit {0})
delete_refresh_tokens_by_user_id user_id db =
    done tt (record db { refresh_tokens = delete (λ t. t.user_id == user_id) db.refresh_tokens })
