-- ===== src/Database/Otps/Attempts.antt =====
-- How the attempts of a challenge are counted in the table `otp`.
use go_auth_refresh_template.Base.{
  ◌≢◌, any-delete, ◌==◌, ℕ, zero, suc, suc_ℤ, ◌≤◌, ℤ, pos, negsuc, ◌≤ℤ◌, ltb_ℤ, String, Bool, true,
  false, none, List, [], ◌∷◌, ◌≡◌, refl, arith, find, update, any, All, id_key, text_key, ◌&&◌,
}
use mathlib.Core.Bool.{and-false}
use go_auth_refresh_template.Domain.{Uuid, Time}
use go_auth_refresh_template.Database.{OtpRow}
use go_auth_refresh_template.Database.Otps.{
  is_reset_code, may_attempt, attempt, overflows, save_otp_code, invalidate_otp_codes_by_identifier,
  increase_otp_attempts,
}
use go_auth_refresh_template.Database.Preserved.{Preserved, Stored}
use go_auth_refresh_template.Database.Users.{save_user, update_user_password}
use go_auth_refresh_template.Database.RefreshTokens.{
  save_refresh_token, consume_refresh_token, delete_refresh_token, delete_refresh_tokens_by_user_id,
}
use go_auth_refresh_template.Database.ResetTokens.{
  save_password_reset_token, consume_password_reset_token,
}

-- A row of the challenge that is still open at the time, with fewer than `k` attempts.
abbrev pub is_behind : Uuid → ℤ → ℕ → Time → OtpRow → Bool
is_behind id max k now o = may_attempt now id max o && ltb_ℤ o.attempts (pos k)

-- No attempt has been counted below zero.
abbrev pub NonNegative : List OtpRow → Type 0
NonNegative otp = All (λ o. pos 0 ≤ℤ o.attempts) otp

pub behind_zero :
    (id : Uuid) (max : ℤ) (now : Time) (otp : List OtpRow)
    → NonNegative otp
    → any (is_behind id max 0 now) otp ≡ false
behind_zero id max now [] h = refl
behind_zero id max now (o ∷ otp) h = ground (arith, behind_zero id max now otp h.1)

-- Later fewer rows are open.
pub behind_later :
    (id : Uuid) (max : ℤ) (k : ℕ) (now later : Time) (otp : List OtpRow)
    → now ≤ later
    → any (is_behind id max k now) otp ≡ false
    → any (is_behind id max k later) otp ≡ false
behind_later id max k now later [] le h = refl
behind_later id max k now later (o ∷ otp) le h =
    ground (arith, behind_later id max k now later otp le)

suc_ℤ-not_below : (a : ℤ) (k : ℕ) → ltb_ℤ a (pos k) ≡ false → ltb_ℤ (suc_ℤ a) (pos (suc k)) ≡ false
suc_ℤ-not_below (pos n) k h = ground arith
suc_ℤ-not_below (negsuc zero) k h = ground arith
suc_ℤ-not_below (negsuc (suc n)) k h = ground arith

attempt_behind :
    (id : Uuid) (max : ℤ) (k : ℕ) (now : Time) (o : OtpRow)
    → is_behind id max k now o ≡ false
    → may_attempt now id max o ≡ true
    → is_behind id max (suc k) now (attempt o) ≡ false
attempt_behind id max k now o h m =
    let below : ltb_ℤ o.attempts (pos k) ≡ false = rw m at h in
    rw (suc_ℤ-not_below o.attempts k below) (and-false _)

-- One more attempt is counted for each row that is open.
pub behind_update :
    (id : Uuid) (max : ℤ) (k : ℕ) (now : Time) (otp : List OtpRow)
    → any (is_behind id max k now) otp ≡ false
    → any (is_behind id max (suc k) now) (update (may_attempt now id max) attempt otp) ≡ false
behind_update id max k now [] h = refl
behind_update id max k now (o ∷ otp) h =
    ground (arith, behind_update id max k now otp, attempt_behind id max k now o)

-- Where no open row has fewer attempts than the limit, no code is accepted.
pub behind_limit :
    (id : Uuid) (hash : String) (max : ℤ) (k : ℕ) (now : Time) (otp : List OtpRow)
    → max ≤ℤ pos k
    → any (is_behind id max k now) otp ≡ false
    → find (is_reset_code now id hash max) otp ≡ none
behind_limit id hash max k now [] le h = refl
behind_limit id hash max k now (o ∷ otp) le h =
    ground (arith, behind_limit id hash max k now otp le)

-- There no attempt is counted either, and no counter overflows.
pub behind_limit_overflows :
    (id : Uuid) (max : ℤ) (k : ℕ) (now : Time) (otp : List OtpRow)
    → max ≤ℤ pos k
    → any (is_behind id max k now) otp ≡ false
    → any (λ o. may_attempt now id max o && overflows o) otp ≡ false
behind_limit_overflows id max k now [] le h = refl
behind_limit_overflows id max k now (o ∷ otp) le h =
    ground (arith, behind_limit_overflows id max k now otp le)

pub behind_limit_update :
    (id : Uuid) (max : ℤ) (k : ℕ) (now : Time) (otp : List OtpRow)
    → max ≤ℤ pos k
    → any (is_behind id max k now) otp ≡ false
    → update (may_attempt now id max) attempt otp ≡ otp
behind_limit_update id max k now [] le h = refl
behind_limit_update id max k now (o ∷ otp) le h =
    ground (arith, behind_limit_update id max k now otp le)

suc_ℤ-not_before : (a m : ℤ) → ltb_ℤ a m ≡ false → ltb_ℤ (suc_ℤ a) m ≡ false
suc_ℤ-not_before (pos n) (pos m) h = ground arith
suc_ℤ-not_before (pos n) (negsuc m) h = ground arith
suc_ℤ-not_before (negsuc zero) (pos m) h = ground arith
suc_ℤ-not_before (negsuc zero) (negsuc m) h = ground arith
suc_ℤ-not_before (negsuc (suc n)) (pos m) h = ground arith
suc_ℤ-not_before (negsuc (suc n)) (negsuc m) h = ground arith

attempt_kept :
    (id : Uuid) (max : ℤ) (k : ℕ) (t : Time) (o : OtpRow)
    → is_behind id max k t o ≡ false
    → is_behind id max k t (attempt o) ≡ false
attempt_kept id max k t o h =
    ground (arith, suc_ℤ-not_before o.attempts max, suc_ℤ-not_before o.attempts (pos k))

-- More attempts, of whatever rows, put no row behind.
behind_attempts :
    (id : Uuid) (max : ℤ) (k : ℕ) (t : Time) (p : OtpRow → Bool) (otp : List OtpRow)
    → any (is_behind id max k t) otp ≡ false
    → any (is_behind id max k t) (update p attempt otp) ≡ false
behind_attempts id max k t p [] h = refl
behind_attempts id max k t p (o ∷ otp) h =
    ground (arith, behind_attempts id max k t p otp, attempt_kept id max k t o)

-- Nor does any statement, where no code is saved with the id of the challenge.
pub Preserved-behind :
    (v : Stored) (id : Uuid) (max : ℤ) (k : ℕ) (t : Time)
    → ((j : Uuid) → v.id j → j ≢ id)
    → Preserved v (λ db. any (is_behind id max k t) db.otp ≡ false)
unfolding save_user update_user_password save_refresh_token consume_refresh_token
    delete_refresh_token delete_refresh_tokens_by_user_id save_password_reset_token
    consume_password_reset_token save_otp_code invalidate_otp_codes_by_identifier
    increase_otp_attempts
Preserved-behind v id max k t other =
    let b = is_behind id max k t in
    record {
      save_user = λ row db new h a db' e. ground arith;
      update_user_password = λ user password db new h a db' e. ground arith;
      save_refresh_token = λ row db new h a db' e. ground arith;
      consume_refresh_token = λ now j db h a db' e. ground arith;
      delete_refresh_token = λ j db h a db' e. ground arith;
      delete_refresh_tokens_by_user_id = λ user db h a db' e. ground arith;
      save_password_reset_token = λ now i user hash expires db new h a db' e. ground arith;
      consume_password_reset_token = λ now hash db h a db' e. ground arith;
      save_otp_code = λ row db new hash h a db' e. ground (arith, other row.id new);
      invalidate_otp_codes_by_identifier = λ identifier db h a db' e.
          ground (arith, any-delete b (λ o. o.identifier == identifier) db.otp h);
      take_otp = λ p db h a db' e. ground (arith, any-delete b p db.otp h);
      increase_otp_attempts = λ now j m db h a db' e.
          ground (arith, behind_attempts id max k t (may_attempt now j m) db.otp h);
    }
