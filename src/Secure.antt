-- ===== src/Secure.antt =====
-- pkg/secure, with what it uses of encoding/hex, crypto/subtle and fmt.
pub mod Hashes
pub mod Format
use Prim.Native.Char.{Char}
use Prim.Native.String
use go_auth_refresh_template.Base.{ℕ, ◌/◌, ◌%◌, String, Bool, ◌==◌, text_key, List, [], ◌∷◌}
use go_auth_refresh_template.World.{Env, Action, try_draw, pure, ◌>>=◌}
use go_auth_refresh_template.Secure.Format.{encode_to_string}

-- `const ResetTokenBytes = 32`
abbrev pub reset_token_bytes : ℕ
reset_token_bytes = 32

module _ (env : Env) where
  -- otp.go
  unfoldable pub hash_otp : String → String → String
  hash_otp code secret = encode_to_string (env.hmac_sha256 secret code)

  -- `subtle.ConstantTimeCompare(a, b) == 1` is equality of the two texts.
  unfoldable pub verify_otp : String → String → String → Bool
  unfolding hash_otp
  verify_otp code hashed_code secret = hash_otp code secret == hashed_code

  -- password.go
  unfoldable pub hash_password : String → Action String
  hash_password password = try_draw (λ n. env.bcrypt_generate n password)

  unfoldable pub check_password : String → String → Bool
  check_password saved_password password = env.bcrypt_compare saved_password password

  -- reset_token.go
  unfoldable pub generate_reset_token : Action String
  generate_reset_token = do
    token ← try_draw (λ n. env.rand_bytes n reset_token_bytes)
    pure (env.base64_raw_url token)

  unfoldable pub hash_reset_token : String → String → String
  hash_reset_token token secret = encode_to_string (env.hmac_sha256 secret token)

  unfoldable pub verify_reset_token : String → String → String → Bool
  unfolding hash_reset_token
  verify_reset_token code hashed_code secret = hash_reset_token code secret == hashed_code
