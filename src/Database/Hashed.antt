-- ===== src/Database/Hashed.antt =====
-- The columns of schema/001_init.sql that keep hashes, over the statements of
-- internal/infra/database/sqlc.
use mathlib.Core.Path.{subst}
use go_auth_refresh_template.Base.{
  ◌≡◌, refl, ◌∷◌, All, All-delete, All-update, arith, find, delete, update, inl, inr, Option-cases,
  ◌==◌, id_key, text_key, none,
}
use go_auth_refresh_template.Domain.{User}
use go_auth_refresh_template.Database.{Database, OtpRow, PasswordResetToken}
use go_auth_refresh_template.Database.Preserved.{Stored, Preserved}
use go_auth_refresh_template.Database.Users.{set_password, save_user, update_user_password}
use go_auth_refresh_template.Database.RefreshTokens.{
  delete_refresh_token, delete_refresh_tokens_by_user_id,
}
use go_auth_refresh_template.Database.RefreshTokens.Laws.{
  save_refresh_token-done, consume_refresh_token-done,
}
use go_auth_refresh_template.Database.ResetTokens.Laws.{consume_password_reset_token-done}
use go_auth_refresh_template.Database.ResetTokens.{is_valid, mark_used, save_password_reset_token}
use go_auth_refresh_template.Database.Otps.{
  save_otp_code, invalidate_otp_codes_by_identifier, increase_otp_attempts, may_attempt, attempt,
}

-- Each password, code hash and token hash in the tables is one of `v`.
pub record OnlyStores (v : Stored) (db : Database) : Type 0 where
  pub users : All (λ u. v.password u.password) db.users
  pub otp : All (λ o. v.code o.code_hash) db.otp
  pub password_reset_tokens : All (λ t. v.token t.token_hash) db.password_reset_tokens

-- The same columns in other tables.
same_columns :
    (v : Stored) (db db' : Database)
    → db.users ≡ db'.users
    → db.otp ≡ db'.otp
    → db.password_reset_tokens ≡ db'.password_reset_tokens
    → OnlyStores v db
    → OnlyStores v db'
same_columns v db db' a b c h = record {
  users = subst (All (λ u. v.password u.password)) a h.users;
  otp = subst (All (λ o. v.code o.code_hash)) b h.otp;
  password_reset_tokens = subst (All (λ t. v.token t.token_hash)) c h.password_reset_tokens;
}

pub Preserved-OnlyStores : (v : Stored) → Preserved v (OnlyStores v)
unfolding save_user update_user_password delete_refresh_token delete_refresh_tokens_by_user_id
    save_password_reset_token save_otp_code invalidate_otp_codes_by_identifier increase_otp_attempts
Preserved-OnlyStores v = record {
  save_user = λ row db new h a db' e.
      same_columns v (record db { users = row ∷ db.users }) db' (ground arith) (ground arith)
        (ground arith)
        (record {
          users = (new, h.users);
          otp = h.otp;
          password_reset_tokens = h.password_reset_tokens;
        });
  update_user_password = λ id password db new h a db' e.
      let p = λ (u : User). u.id == id in
      same_columns v (record db { users = update p (set_password password) db.users }) db'
        (ground arith) (ground arith) (ground arith)
        (record {
          users = All-update p (set_password password) db.users (λ u old. new) h.users;
          otp = h.otp;
          password_reset_tokens = h.password_reset_tokens;
        });
  save_refresh_token = λ row db new h a db' e.
      let (fresh, known, is) = save_refresh_token-done row db {db' = db'} e in
      same_columns v db db' (rw is refl) (rw is refl) (rw is refl) h;
  consume_refresh_token = λ now id db h a db' e.
      let (t, found, row, is) = consume_refresh_token-done now id db {row = a} {db' = db'} e in
      same_columns v db db' (rw is refl) (rw is refl) (rw is refl) h;
  delete_refresh_token =
      λ id db h a db' e. same_columns v db db' (ground arith) (ground arith) (ground arith) h;
  delete_refresh_tokens_by_user_id =
      λ user_id db h a db' e. same_columns v db db' (ground arith) (ground arith) (ground arith) h;
  save_password_reset_token = λ now id user_id hash expires_at db new h a db' e.
      let row : PasswordResetToken = record {
        id = id;
        user_id = user_id;
        token_hash = hash;
        expires_at = expires_at;
        used_at = none;
        created_at = now;
      } in
      same_columns v (record db { password_reset_tokens = row ∷ db.password_reset_tokens }) db'
        (ground arith) (ground arith) (ground arith)
        (record {
          users = h.users;
          otp = h.otp;
          password_reset_tokens = (new, h.password_reset_tokens);
        });
  consume_password_reset_token = λ now hash db h a db' e.
      let (t, found, row, is) =
        consume_password_reset_token-done now hash db {row = a} {db' = db'} e in
      rw is (record {
        users = h.users;
        otp = h.otp;
        password_reset_tokens =
            All-update (is_valid now hash) (mark_used now) db.password_reset_tokens (λ t old. old)
              h.password_reset_tokens;
      });
  save_otp_code = λ row db new hash h a db' e.
      same_columns v (record db { otp = row ∷ db.otp }) db' (ground arith) (ground arith)
        (ground arith)
        (record {
          users = h.users;
          otp = (hash, h.otp);
          password_reset_tokens = h.password_reset_tokens;
        });
  invalidate_otp_codes_by_identifier = λ identifier db h a db' e.
      let p = λ (o : OtpRow). o.identifier == identifier in
      same_columns v (record db { otp = delete p db.otp }) db' (ground arith) (ground arith)
        (ground arith)
        (record {
          users = h.users;
          otp = All-delete _ p db.otp h.otp;
          password_reset_tokens = h.password_reset_tokens;
        });
  take_otp = λ p db h a db' e. elim (Option-cases (find p db.otp)) [
    | inl none_found ↦ ground arith
    | inr (o, found) ↦
        same_columns v (record db { otp = delete p db.otp }) db' (ground arith) (ground arith)
          (ground arith)
          (record {
            users = h.users;
            otp = All-delete _ p db.otp h.otp;
            password_reset_tokens = h.password_reset_tokens;
          })
  ];
  increase_otp_attempts = λ now id max db h a db' e.
      let p = may_attempt now id max in
      same_columns v (record db { otp = update p attempt db.otp }) db' (ground arith) (ground arith)
        (ground arith)
        (record {
          users = h.users;
          otp = All-update p attempt db.otp (λ o old. old) h.otp;
          password_reset_tokens = h.password_reset_tokens;
        });
}
