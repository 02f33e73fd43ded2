-- ===== src/Errors.antt =====
-- Go's error values as this program builds them: internal/domain/error.go, the sentinel values
-- that the services, the repositories and the middleware declare, internal/web/client_errors, and
-- `errors.Is` and `errors.As` of Go's standard library over them.
use go_auth_refresh_template.Base.{ℕ, String, Bool, true, false, Option, none, some, List}

-- The values made by `errors.New`, which are told apart by identity.
pub data Sentinel : Type 0 where
  user_already_registered user_not_registered invalid_credentials invalid_reset_token : Sentinel
  otp_code_not_found invalid_otp_code : Sentinel
  invalid_refresh_token refresh_token_not_found_or_expired : Sentinel
  invalid_signing_method invalid_claims token_not_provided invalid_token : Sentinel
  invalid_user_id user_not_found : Sentinel
  email_already_registered : Sentinel
  jwt_not_provided user_forbidden : Sentinel
  no_rows no_cookie : Sentinel

-- `type ErrorCode string`, and its constants.
abbrev pub ErrorCode : Type 0
ErrorCode = String

abbrev pub code_invalid_input : ErrorCode
code_invalid_input = "INVALID_INPUT"

abbrev pub code_unauthenticated : ErrorCode
code_unauthenticated = "UNAUTHENTICATED"

abbrev pub code_permission_denied : ErrorCode
code_permission_denied = "PERMISSION_DENIED"

abbrev pub code_resource_not_found : ErrorCode
code_resource_not_found = "RESOURCE_NOT_FOUND"

abbrev pub code_already_exists : ErrorCode
code_already_exists = "ALREADY_EXISTS"

abbrev pub code_invalid_state : ErrorCode
code_invalid_state = "INVALID_STATE"

-- `clienterrors.Causes`; it is also what the program reads of a `validator.FieldError`.
pub record Cause : Type 0 where
  pub field : String
  pub message : String

-- An error and what it wraps. `Errors` is what `errors.Join` holds; the empty list is `nil`.
mutual
  pub data Error : Type 0 where
    sentinel : Sentinel → Error
    wrap : String → Error → Error
    join : Errors → Error
    domain : String → ErrorCode → Errors → Error
    client : ℕ → String → List Cause → Errors → Error
    validation : List Cause → Error
    pq : String → Error
    op_error : String → Error
    external : String → Error

  pub data Errors : Type 0 where
    nil : Errors
    cons : Error → Errors → Errors

pub record DomainError : Type 0 where
  pub message : String
  pub code : ErrorCode
  pub err : Errors

pub record ClientErr : Type 0 where
  pub err : Errors
  pub message : String
  pub code : ℕ
  pub causes : List Cause

abbrev pub one : Error → Errors
one e = cons e nil

-- `NewInvalidInputError` and its siblings, over `NewDomainError`.
abbrev pub new_domain_error : String → ErrorCode → Errors → Error
new_domain_error message code errs = domain message code errs

abbrev pub new_invalid_input_error : String → Errors → Error
new_invalid_input_error message errs = new_domain_error message code_invalid_input errs

abbrev pub new_unauthenticated_error : String → Errors → Error
new_unauthenticated_error message errs = new_domain_error message code_unauthenticated errs

abbrev pub new_permission_denied_error : String → Errors → Error
new_permission_denied_error message errs = new_domain_error message code_permission_denied errs

abbrev pub new_resource_not_found_error : String → Errors → Error
new_resource_not_found_error message errs = new_domain_error message code_resource_not_found errs

abbrev pub new_already_exists_error : String → Errors → Error
new_already_exists_error message errs = new_domain_error message code_already_exists errs

abbrev pub new_invalid_state_error : String → Errors → Error
new_invalid_state_error message errs = new_domain_error message code_invalid_state errs

abbrev pub or_else {ℓ} : {A : Type ℓ} → Option A → Option A → Option A
or_else none o = o
or_else (some a) o = some a

-- `errors.As`: the error itself, then what it wraps, depth first. `pick` tests for the wanted type.
unfoldable mutual
  pub errors_as : {A : Type 0} → (Error → Option A) → Error → Option A
  errors_as pick (wrap text e) = or_else (pick (wrap text e)) (errors_as pick e)
  errors_as pick (join es) = or_else (pick (join es)) (errors_as_any pick es)
  errors_as pick (domain m c es) = or_else (pick (domain m c es)) (errors_as_any pick es)
  errors_as pick (client n m cs es) = or_else (pick (client n m cs es)) (errors_as_any pick es)
  errors_as pick e = pick e

  pub errors_as_any : {A : Type 0} → (Error → Option A) → Errors → Option A
  errors_as_any pick nil = none
  errors_as_any pick (cons e es) = or_else (errors_as pick e) (errors_as_any pick es)

abbrev pub pick_domain : Error → Option DomainError
pick_domain (domain m c es) = some (record { message = m; code = c; err = es })
pick_domain _ = none

abbrev pub pick_client : Error → Option ClientErr
pick_client (client n m cs es) = some (record { err = es; message = m; code = n; causes = cs })
pick_client _ = none

abbrev pub pick_validation : Error → Option (List Cause)
pick_validation (validation fields) = some fields
pick_validation _ = none

-- The code of a `*pq.Error`.
abbrev pub pick_pq : Error → Option String
pick_pq (pq code) = some code
pick_pq _ = none

abbrev pub pick_op_error : Error → Option String
pick_op_error (op_error text) = some text
pick_op_error _ = none

abbrev pub pick_sentinel : (Sentinel → Bool) → Error → Option (Unit {0})
pick_sentinel is (sentinel s) = elim (is s) [ true ↦ some tt | false ↦ none ]
pick_sentinel is _ = none

abbrev pub is_some {ℓ} : {A : Type ℓ} → Option A → Bool
is_some none = false
is_some (some _) = true

-- `errors.Is` against a sentinel.
unfoldable pub errors_is : (Sentinel → Bool) → Error → Bool
unfolding errors_as
errors_is is e = is_some (errors_as (pick_sentinel is) e)

abbrev pub is_no_rows : Sentinel → Bool
is_no_rows no_rows = true
is_no_rows _ = false

abbrev pub is_email_already_registered : Sentinel → Bool
is_email_already_registered email_already_registered = true
is_email_already_registered _ = false
