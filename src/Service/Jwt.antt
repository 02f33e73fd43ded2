-- ===== src/Service/Jwt.antt =====
-- internal/service/jwt.go
pub mod RoundTrip
use Prim.Native.String.{slice, len}
use text.Mathlib.Text.{starts_with}
use go_auth_refresh_template.Base.{String, none, some, ◌+◌, ◌==◌, text_key, not, if◌then◌else◌}
use go_auth_refresh_template.Domain.{Uuid, JwtOptions}
use go_auth_refresh_template.Errors.{
  Error, sentinel, wrap, domain, one, errors_as, pick_domain, new_unauthenticated_error,
  invalid_token, token_not_provided, invalid_claims, invalid_signing_method,
}
use go_auth_refresh_template.World.{
  Env, Outcome, ok, err, panics, Action, raise, ◌>>=◌, draw, from_outcome, wrap_error,
  RegisteredClaims, SigningMethod, hmac, other, JwtToken,
}

-- `strings.TrimPrefix(s, prefix)` where `s` has the prefix.
abbrev pub after_prefix : String → String → String
after_prefix s prefix = slice s (len prefix) (len s)

abbrev pub bearer : String
bearer = "Bearer "

-- An error of the parser: a domain error within it goes on, any other is an invalid token.
abbrev pub parse_error : Error → Error
parse_error e = elim (errors_as pick_domain e) [
  | some d ↦ wrap "parsing access token" (domain d.message d.code d.err)
  | none ↦ new_unauthenticated_error "invalid token" (one (sentinel invalid_token))
]

abbrev pub check_claims : JwtToken → Outcome RegisteredClaims
check_claims token = elim token.claims [
  | none ↦ err (new_unauthenticated_error "invalid token claims" (one (sentinel invalid_claims)))
  | some claims ↦
      if token.valid
      then ok claims
      else err (new_unauthenticated_error "invalid token claims" (one (sentinel invalid_claims)))
]

abbrev pub parsed : Outcome JwtToken → Outcome RegisteredClaims
parsed (ok token) = check_claims token
parsed (err e) = err (parse_error e)
parsed (panics s) = panics s

module _ (env : Env) (jwt_options : JwtOptions) where
  unfoldable pub generate_access_token : Uuid → Action String
  generate_access_token user_id = do
    id ← draw env.uuid_new
    expires ← draw env.now
    issued ← draw env.now
    wrap_error "signing access token" (
        from_outcome (
          env.jwt_sign jwt_options.private_key (record {
            subject = env.uuid_string user_id;
            id = env.uuid_string id;
            expires_at = env.jwt_numeric_date (expires + jwt_options.duration);
            issued_at = env.jwt_numeric_date issued;
          })))

  -- The function that gives the parser the key: only for the HMAC methods.
  unfoldable pub key_func : SigningMethod → Outcome String
  key_func (hmac _) = ok jwt_options.private_key
  key_func (other _) = err (
      new_unauthenticated_error "invalid token signing method"
        (one (sentinel invalid_signing_method)))

  unfoldable pub validate_access_token : String → Action RegisteredClaims
  unfolding errors_as key_func
  validate_access_token bearer_token =
      if not (starts_with bearer_token bearer)
      then raise (new_unauthenticated_error "invalid token format" (one (sentinel invalid_token)))
      else if after_prefix bearer_token bearer == ""
      then raise (
          new_unauthenticated_error "token string was not provided"
            (one (sentinel token_not_provided)))
      else do
        now ← draw env.now
        from_outcome (parsed (env.jwt_parse now (after_prefix bearer_token bearer) key_func))
