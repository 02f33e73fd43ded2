-- ===== src/Tests/Format.antt =====
-- The formats of Secure.Format on small inputs.
use Prim.Native.String.{count}
use go_auth_refresh_template.Base.{◌%◌, true, ◌∷◌, [], ◌↔◌, arith}
use go_auth_refresh_template.World.{Env}
use go_auth_refresh_template.Secure.{hash_otp, verify_otp, hash_reset_token, verify_reset_token}
use go_auth_refresh_template.Secure.Hashes.{verify_otp_iff}
use go_auth_refresh_template.Tests.Fixture.{env}
use go_auth_refresh_template.Base.{[], ◌∷◌, ◌≡◌, refl}
use go_auth_refresh_template.Secure.Format.{sprintf_06d, encode_to_string}

six_digits : sprintf_06d 4207 ≡ "004207"
unfolding sprintf_06d
six_digits = refl

hexadecimal : encode_to_string (116 ∷ 111 ∷ []) ≡ "746f"
unfolding encode_to_string
hexadecimal = refl

-- A hash of one byte.
abbrev short : Env
short = record env { hmac_sha256 = λ key message. count message % 256 ∷ [] }

verify_otp_iff_example :
    ((verify_otp short "004207" (hash_otp short "004208" "otp") "otp" ≡ true)
      ↔ (short.hmac_sha256 "otp" "004207" ≡ short.hmac_sha256 "otp" "004208"))
    × ((verify_reset_token short "004207" (hash_reset_token short "004208" "otp") "otp" ≡ true)
        ↔ (short.hmac_sha256 "otp" "004207" ≡ short.hmac_sha256 "otp" "004208"))
verify_otp_iff_example =
    verify_otp_iff short "otp" "004207" "004208" (λ key message. (omega arith, tt))
