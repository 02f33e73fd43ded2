-- ===== src/Database/Integrity.antt =====
-- The constraints of schema/001_init.sql as a property of the tables.
use go_auth_refresh_template.Base.{
  Bool, false, List, ◌≡◌, any, ◌==◌, id_key, text_key, ◌||◌, not, Distinct,
}
use go_auth_refresh_template.Domain.{Uuid, User, RefreshToken}
use go_auth_refresh_template.Database.{Database, PasswordResetToken, OtpRow}
use go_auth_refresh_template.Database.Users.{clashes}

abbrev pub same_token : RefreshToken → RefreshToken → Bool
same_token t s = s.id == t.id

abbrev pub same_reset : PasswordResetToken → PasswordResetToken → Bool
same_reset t s = s.id == t.id || s.token_hash == t.token_hash

abbrev pub same_otp : OtpRow → OtpRow → Bool
same_otp o p = p.id == o.id || p.identifier == o.identifier

-- The foreign key `user_id` of a row refers to no user.
abbrev pub orphan : List User → Uuid → Bool
orphan users user_id = not (any (λ u. u.id == user_id) users)

pub record IsValid (db : Database) : Type 0 where
  pub users : Distinct clashes db.users
  pub refresh_tokens : Distinct same_token db.refresh_tokens
  pub refresh_users : any (λ t. orphan db.users t.user_id) db.refresh_tokens ≡ false
  pub reset_tokens : Distinct same_reset db.password_reset_tokens
  pub reset_users : any (λ t. orphan db.users t.user_id) db.password_reset_tokens ≡ false
  pub otp : Distinct same_otp db.otp
