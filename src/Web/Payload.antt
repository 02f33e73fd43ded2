-- ===== src/Web/Payload.antt =====
-- The request payloads of internal/web/models/user.go. Their JSON form and the rules of their
-- `validate` tags are applied by code outside the repository, so both are parameters.
use go_auth_refresh_template.Base.{String, List, [], ◌∷◌}
use go_auth_refresh_template.Domain.{Uuid}
use go_auth_refresh_template.Errors.{Cause, validation, one}
use go_auth_refresh_template.World.{Outcome, ok, err, panics}
use go_auth_refresh_template.Web.Errors.{new_bad_request_error, as_error}

pub record RegisterUserPayload : Type 0 where
  pub email : String
  pub password : String
  pub username : String

pub record LoginPayload : Type 0 where
  pub email : String
  pub password : String

pub record SendOtpPayload : Type 0 where
  pub email : String

pub record VerifyOtpPayload : Type 0 where
  pub email : String
  pub code : String

pub record VerifyPasswordResetCodePayload : Type 0 where
  pub challenge_id : Uuid
  pub code : String

pub record ResetPasswordPayload : Type 0 where
  pub password : String
  pub reset_token : String

-- `json.NewDecoder(r.Body).Decode(&payload)`, and the field errors of `Validator.Struct(payload)`,
-- none where it returns nil.
pub record Codec (P : Type 0) : Type 0 where
  pub decode : String → Outcome P
  pub validate : P → List Cause

pub record Codecs : Type 0 where
  pub register_user : Codec RegisterUserPayload
  pub login : Codec LoginPayload
  pub send_otp : Codec SendOtpPayload
  pub verify_otp : Codec VerifyOtpPayload
  pub verify_password_reset_code : Codec VerifyPasswordResetCodePayload
  pub reset_password : Codec ResetPasswordPayload

abbrev pub validated : {P : Type 0} → List Cause → P → Outcome P
validated [] payload = ok payload
validated (c ∷ cs) payload = err (validation (c ∷ cs))

abbrev pub checked : {P : Type 0} → Codec P → Outcome P → Outcome P
checked codec (ok payload) = validated (codec.validate payload) payload
checked codec (err e) = err (as_error (new_bad_request_error "invalid request body" (one e)))
checked codec (panics s) = panics s

-- The start of each handler: the payload, or the error that it hands to `HandleError`.
unfoldable pub receive : {P : Type 0} → Codec P → String → Outcome P
receive codec body = checked codec (codec.decode body)
