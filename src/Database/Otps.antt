-- ===== src/Database/Otps.antt =====
-- The statements of internal/infra/database/sqlc/otp.sql.go on the table `otp`.
pub mod Attempts
use go_auth_refresh_template.Base.{
  ℤ, pos, ltb_ℤ, suc_ℤ, String, Bool, none, some, ◌==◌, id_key, text_key, ◌||◌, ◌&&◌, ◌∷◌, any,
  find, update, delete, ltb, not, if◌then◌else◌,
}
use go_auth_refresh_template.Domain.{Uuid, Time}
use go_auth_refresh_template.Database.{
  Database, OtpRow, Reply, done, refused, unique_violation, string_data_right_truncation,
  numeric_value_out_of_range, err_no_rows,
}
use go_auth_refresh_template.Database.Users.{fits_varchar}

unfoldable pub save_otp_code : OtpRow → Database → Reply (Unit {0})
save_otp_code row db =
    if not (fits_varchar row.identifier && fits_varchar row.code_hash)
    then refused string_data_right_truncation
    else if any (λ o. o.id == row.id || o.identifier == row.identifier) db.otp
    then refused unique_violation
    else done tt (record db { otp = row ∷ db.otp })

unfoldable pub invalidate_otp_codes_by_identifier : String → Database → Reply (Unit {0})
invalidate_otp_codes_by_identifier identifier db =
    done tt (record db { otp = delete (λ o. o.identifier == identifier) db.otp })

-- `code_hash = $1 AND identifier = $2 AND expires_at > NOW()`
abbrev pub is_login_code : Time → String → String → OtpRow → Bool
is_login_code now code_hash identifier o =
    o.code_hash == code_hash && o.identifier == identifier && ltb now o.expires_at

-- `id = $1 AND code_hash = $2 AND expires_at > NOW() AND attempts < $3`
abbrev pub is_reset_code : Time → Uuid → String → ℤ → OtpRow → Bool
is_reset_code now id code_hash max_attempts o =
    o.id == id && o.code_hash == code_hash && ltb now o.expires_at && ltb_ℤ o.attempts max_attempts

-- `DELETE FROM otp WHERE p RETURNING …`, of which the first row is read.
abbrev pub take_otp : (OtpRow → Bool) → Database → Reply OtpRow
take_otp p db = elim (find p db.otp) [
  | none ↦ refused err_no_rows
  | some o ↦ done o (record db { otp = delete p db.otp })
]

unfoldable pub consume_otp_code : Time → String → String → Database → Reply OtpRow
consume_otp_code now code_hash identifier db = take_otp (is_login_code now code_hash identifier) db

unfoldable pub consume_otp_code_by_challenge_id : Time → Uuid → String → ℤ → Database → Reply OtpRow
consume_otp_code_by_challenge_id now id code_hash max_attempts db =
    take_otp (is_reset_code now id code_hash max_attempts) db

-- `id = $1 AND expires_at > NOW() AND attempts < $2`
abbrev pub may_attempt : Time → Uuid → ℤ → OtpRow → Bool
may_attempt now id max_attempts o =
    o.id == id && ltb now o.expires_at && ltb_ℤ o.attempts max_attempts

abbrev pub attempt : OtpRow → OtpRow
attempt o = record o { attempts = suc_ℤ o.attempts }

-- The largest SMALLINT has no successor.
abbrev pub overflows : OtpRow → Bool
overflows o = not (ltb_ℤ o.attempts (pos 32767))

unfoldable pub increase_otp_attempts : Time → Uuid → ℤ → Database → Reply (Unit {0})
increase_otp_attempts now id max_attempts db =
    if any (λ o. may_attempt now id max_attempts o && overflows o) db.otp
    then refused numeric_value_out_of_range
    else done tt (record db { otp = update (may_attempt now id max_attempts) attempt db.otp })
