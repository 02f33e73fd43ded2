-- ===== src/Database/RefreshTokens/Dead.antt =====
-- Refresh tokens of internal/infra/database/sqlc/refresh_token.sql.go that are no longer live, for good.
use go_auth_refresh_template.Base.{
  All, some, ◌≤◌, false, none, List, [], ◌∷◌, ◌≡◌, ◌≢◌, refl, arith, any, update, id_key, ◌==◌,
  any-delete,
}
use go_auth_refresh_template.Domain.{Uuid, Time, RefreshToken}
use go_auth_refresh_template.Database.{Database}
use go_auth_refresh_template.Database.Preserved.{Preserved, Stored}
use go_auth_refresh_template.Database.Users.{save_user, update_user_password}
use go_auth_refresh_template.Database.RefreshTokens.{
  is_live, expire, delete_refresh_token, delete_refresh_tokens_by_user_id,
}
use go_auth_refresh_template.Database.RefreshTokens.Laws.{
  save_refresh_token-done, consume_refresh_token-done,
}
use go_auth_refresh_template.Database.RefreshTokens.Sessions.{session, DistinctIds}
use go_auth_refresh_template.Database.ResetTokens.{
  save_password_reset_token, consume_password_reset_token,
}
use go_auth_refresh_template.Database.Otps.{
  save_otp_code, invalidate_otp_codes_by_identifier, increase_otp_attempts,
}

-- No row of the id is live at the time `limit`.
abbrev pub AllDead : Time → Uuid → List RefreshToken → Type 0
AllDead limit id ts = any (is_live limit id) ts ≡ false

abbrev pub IsDead : Time → Uuid → Database → Type 0
IsDead limit id db = AllDead limit id db.refresh_tokens

-- Nor is it at any time after.
pub AllDead-session :
    (limit t : Time) (id : Uuid) (ts : List RefreshToken)
    → limit ≤ t
    → AllDead limit id ts
    → session t ts id ≡ none
AllDead-session limit t id [] h dead = refl
AllDead-session limit t id (row ∷ ts) h dead = ground (arith, AllDead-session limit t id ts h)

pub session-AllDead :
    (limit : Time) (id : Uuid) (ts : List RefreshToken)
    → session limit ts id ≡ none
    → AllDead limit id ts
session-AllDead limit id [] h = refl
session-AllDead limit id (row ∷ ts) h = ground (arith, session-AllDead limit id ts)

session-other :
    (t : Time) (id j : Uuid) (ts : List RefreshToken)
    → id ≡ j
    → All (λ s. s.id ≢ id) ts
    → session t ts j ≡ none
session-other t id j [] same h = refl
session-other t id j (row ∷ ts) same (other, h) = ground (arith, session-other t id j ts same h)

-- Where no two rows have the same id, a session was there before.
pub session_before :
    (t before : Time) (id user : Uuid) (ts : List RefreshToken)
    → DistinctIds ts
    → before ≤ t
    → session t ts id ≡ some user
    → session before ts id ≡ some user
session_before t before id user [] distinct le h = ground arith
session_before t before id user (row ∷ ts) (new, distinct) le h =
    ground (arith, session_before t before id user ts distinct le, session-other t row.id id ts)

-- A row that is consumed is dead from then on.
pub consumed-AllDead :
    (now : Time) (id : Uuid) (ts : List RefreshToken)
    → AllDead now id (update (is_live now id) (expire now) ts)
consumed-AllDead now id [] = refl
consumed-AllDead now id (row ∷ ts) = ground (arith, consumed-AllDead now id ts)

-- A live row that is consumed expires earlier than before.
AllDead-update :
    (limit now : Time) (id j : Uuid) (ts : List RefreshToken)
    → AllDead limit id ts
    → AllDead limit id (update (is_live now j) (expire now) ts)
AllDead-update limit now id j [] dead = refl
AllDead-update limit now id j (row ∷ ts) dead = ground (arith, AllDead-update limit now id j ts)

-- No statement revives it, where no token is saved with its id.
pub Preserved-IsDead :
    (v : Stored) (limit : Time) (id : Uuid)
    → ((j : Uuid) → v.id j → j ≢ id)
    → Preserved v (IsDead limit id)
unfolding save_user update_user_password delete_refresh_token delete_refresh_tokens_by_user_id
    save_password_reset_token consume_password_reset_token save_otp_code
    invalidate_otp_codes_by_identifier increase_otp_attempts
Preserved-IsDead v limit id other = record {
  save_user = λ row db new dead a db' h. ground arith;
  update_user_password = λ user password db new dead a db' h. ground arith;
  save_refresh_token = λ row db new dead a db' h.
      ground (arith, save_refresh_token-done row db {db' = db'} h, other row.id new);
  consume_refresh_token = λ now j db dead a db' h. ground (
    arith,
    consume_refresh_token-done now j db {row = a} {db' = db'} h,
    AllDead-update limit now id j db.refresh_tokens dead,
  );
  delete_refresh_token = λ j db dead a db' h.
      ground (arith, any-delete (is_live limit id) (λ t. t.id == j) db.refresh_tokens dead);
  delete_refresh_tokens_by_user_id = λ user db dead a db' h.
      ground (arith, any-delete (is_live limit id) (λ t. t.user_id == user) db.refresh_tokens dead);
  save_password_reset_token = λ now i user hash expires db new dead a db' h. ground arith;
  consume_password_reset_token = λ now hash db dead a db' h. ground arith;
  save_otp_code = λ row db new hash dead a db' h. ground arith;
  invalidate_otp_codes_by_identifier = λ identifier db dead a db' h. ground arith;
  take_otp = λ p db dead a db' h. ground arith;
  increase_otp_attempts = λ now i max db dead a db' h. ground arith;
}
