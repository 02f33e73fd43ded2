-- ===== src/Web/Errors.antt =====
-- internal/web/client_errors, and the translation of errors by `HandleError` of
-- internal/web/handler/utils.go. The log lines are left out.
pub mod Bodies
pub mod Laws
use go_auth_refresh_template.Base.{
  ℕ, String, Option, none, some, List, [], ◌==◌, text_key, if◌then◌else◌,
}
use go_auth_refresh_template.Errors.{
  Error, Errors, Cause, ClientErr, DomainError, domain, client, nil, one, errors_as, pick_domain,
  pick_client, pick_validation, code_invalid_input, code_unauthenticated, code_permission_denied,
  code_resource_not_found, code_already_exists, code_invalid_state,
}
use go_auth_refresh_template.Web.Http.{Response, null, client_err, handle_json}

abbrev pub new_client_err : ℕ → String → Errors → ClientErr
new_client_err code message err = record { err = err; message = message; code = code; causes = [] }

abbrev pub new_bad_request_error : String → Errors → ClientErr
new_bad_request_error message err = new_client_err 400 message err

abbrev pub new_unauthorized_error : String → Errors → ClientErr
new_unauthorized_error message err = new_client_err 401 message err

abbrev pub new_forbidden_error : String → Errors → ClientErr
new_forbidden_error message err = new_client_err 403 message err

abbrev pub new_not_found_error : String → Errors → ClientErr
new_not_found_error message err = new_client_err 404 message err

abbrev pub new_conflict_error : String → Errors → ClientErr
new_conflict_error message err = new_client_err 409 message err

abbrev pub new_unprocessable_entity_error : String → Errors → ClientErr
new_unprocessable_entity_error message err = new_client_err 422 message err

abbrev pub new_bad_request_validation_error : String → List Cause → ClientErr
new_bad_request_validation_error message causes = record {
  err = nil;
  message = message;
  code = 400;
  causes = causes;
}

-- The causes are the field and the message of each validation error, in order.
abbrev pub new_validation_error : List Cause → ClientErr
new_validation_error causes =
    new_bad_request_validation_error "one or more fields are invalid" causes

-- A `*ClientErr` as an `error`.
abbrev pub as_error : ClientErr → Error
as_error e = client e.code e.message e.causes e.err

-- `newClientErrorFromDomainError`
unfoldable pub new_client_error_from_domain_error : DomainError → Option ClientErr
new_client_error_from_domain_error e =
    let err : Errors = one (domain e.message e.code e.err) in
    if e.code == code_invalid_input
    then some (new_bad_request_error e.message err)
    else if e.code == code_unauthenticated
    then some (new_unauthorized_error e.message err)
    else if e.code == code_permission_denied
    then some (new_forbidden_error e.message err)
    else if e.code == code_resource_not_found
    then some (new_not_found_error e.message err)
    else if e.code == code_already_exists
    then some (new_conflict_error e.message err)
    else if e.code == code_invalid_state
    then some (new_unprocessable_entity_error e.message err)
    else none

-- `HandleJSON(w, apiErr.Code, apiErr)`
abbrev pub client_response : ClientErr → Response
client_response e = handle_json e.code (client_err e.message e.code e.causes)

-- `HandleJSON(w, http.StatusInternalServerError, nil)`
abbrev pub internal_error : Response
internal_error = handle_json 500 null

abbrev pub domain_response : DomainError → Response
domain_response d = elim (new_client_error_from_domain_error d) [
  | none ↦ internal_error
  | some e ↦ client_response e
]

-- `HandleError` on an error that is not nil: a validation error, else a domain error, else a client
-- error, each found by `errors.As`.
unfoldable pub handle_error : Error → Response
unfolding errors_as new_client_error_from_domain_error
handle_error e = elim (errors_as pick_validation e) [
  | some fields ↦ client_response (new_validation_error fields)
  | none ↦ elim (errors_as pick_domain e) [
    | some d ↦ domain_response d
    | none ↦ elim (errors_as pick_client e) [ some c ↦ client_response c | none ↦ internal_error ]
  ]
]
