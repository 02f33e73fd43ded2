-- ===== src/Service/Jwt/RoundTrip.antt =====
-- `GenerateAccessToken` of internal/service/jwt.go, and `ValidateAccessToken` on what it signed.
use Prim.Native.String.{◌++◌}
use text.Mathlib.Text.{starts_with}
use text.Mathlib.TextPositions.{slice-append_right, len-append, starts_with-append}
use go_auth_refresh_template.Base.{
  ℕ, ◌+◌, refl, ◌<◌, String, true, some, ◌≡◌, ◌≢◌, arith, ==_iff, text_key,
}
use go_auth_refresh_template.Domain.{Uuid, Time, JwtOptions}
use go_auth_refresh_template.World.{
  Env, World, Outcome, ok, RegisteredClaims, SigningMethod, hmac, next_draw,
}
use go_auth_refresh_template.Service.Jwt.{
  generate_access_token, validate_access_token, key_func, bearer, after_prefix,
}

module _ (env : Env) (options : JwtOptions) where
  -- The claims of an access token that is made from the draw `n` on.
  abbrev pub claims_of : Uuid → ℕ → RegisteredClaims
  claims_of user n = record {
    subject = env.uuid_string user;
    id = env.uuid_string (env.uuid_new n);
    expires_at = env.jwt_numeric_date (env.now (n + 1) + options.duration);
    issued_at = env.jwt_numeric_date (env.now (n + 1 + 1));
  }

  pub generate_access_token-ok :
      (user : Uuid) (w : World) {access : String} {w' : World}
      → generate_access_token env options user w ≡ (ok access, w')
      → (env.jwt_sign options.private_key (claims_of user w.draws) ≡ ok access)
        × (w' ≡ record w { draws = w.draws + 3 })
  unfolding generate_access_token
  generate_access_token-ok user w h = ground arith

-- What the JWT library documents: a signed token is not empty, and with the key that signed it (by
-- HS256) it is parsed as valid, with its claims, before it expires.
pub record ReadsSigned (env : Env) : Type 0 where
  pub nonempty :
      (key : String) (claims : RegisteredClaims) {token : String}
      → env.jwt_sign key claims ≡ ok token
      → token ≢ ""
  pub reads :
      (key : String) (claims : RegisteredClaims) (now : Time) (f : SigningMethod → Outcome String)
      {token : String}
      → env.jwt_sign key claims ≡ ok token
      → f (hmac "HS256") ≡ ok key
      → now < claims.expires_at
      → env.jwt_parse now token f ≡ ok (record { claims = some claims; valid = true })

pub after_prefix-append : (s t : String) → after_prefix (s ++ t) s ≡ t
after_prefix-append s t = rw (len-append s t) (slice-append_right s t)

-- Before it expires, an access token is accepted behind "Bearer ", with the claims that were signed.
pub validate_access_token-signed :
    (env : Env) (options : JwtOptions) (claims : RegisteredClaims) (w : World) {access : String}
    → ReadsSigned env
    → env.jwt_sign options.private_key claims ≡ ok access
    → env.now w.draws < claims.expires_at
    → validate_access_token env options (bearer ++ access) w ≡ (ok claims, next_draw w)
unfolding validate_access_token key_func
validate_access_token-signed env options claims w {access} jwt signed before =
    let parses =
      jwt.reads options.private_key claims (env.now w.draws) (key_func env options) {token = access}
        signed refl before in
    let rest = after_prefix-append bearer access in
    let prefix : starts_with (bearer ++ access) bearer ≡ true = starts_with-append bearer access in
    let full = jwt.nonempty options.private_key claims {token = access} signed in
    ground (arith, ==_iff access "")
