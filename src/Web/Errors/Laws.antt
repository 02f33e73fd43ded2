-- ===== src/Web/Errors/Laws.antt =====
-- `HandleError` of internal/web/handler/utils.go: which response an error becomes.
use go_auth_refresh_template.Base.{ℕ, String, none, List, [], ◌∷◌, ◌≡◌, refl, ◌∙◌, arith}
use go_auth_refresh_template.Errors.{
  Error, Errors, ErrorCode, domain, wrap, errors_as, errors_as_any, pick_validation,
  code_invalid_input, code_unauthenticated, code_permission_denied, code_resource_not_found,
  code_already_exists, code_invalid_state,
}
use go_auth_refresh_template.Web.Http.{handle_json, client_err}
use go_auth_refresh_template.Web.Errors.{handle_error, new_client_error_from_domain_error}

-- The contexts that `fmt.Errorf("…: %w", err)` puts around an error on its way up, the outer first.
abbrev pub in_contexts : List String → Error → Error
in_contexts [] e = e
in_contexts (text ∷ texts) e = wrap text (in_contexts texts e)

-- The status of each kind of domain error.
pub data StatusOf : ErrorCode → ℕ → Type 0 where
  invalid_input : StatusOf code_invalid_input 400
  unauthenticated : StatusOf code_unauthenticated 401
  permission_denied : StatusOf code_permission_denied 403
  resource_not_found : StatusOf code_resource_not_found 404
  already_exists : StatusOf code_already_exists 409
  invalid_state : StatusOf code_invalid_state 422

handle_error-in_contexts :
    (texts : List String) (e : Error) → handle_error (in_contexts texts e) ≡ handle_error e
unfolding handle_error errors_as
handle_error-in_contexts [] e = refl
handle_error-in_contexts (text ∷ texts) e = handle_error-in_contexts texts e

handle_error-domain :
    (message : String) (code : ErrorCode) (cause : Errors) (status : ℕ)
    → StatusOf code status
    → errors_as_any pick_validation cause ≡ none
    → handle_error (domain message code cause) ≡ handle_json status (client_err message status [])
unfolding handle_error errors_as new_client_error_from_domain_error
handle_error-domain message _ cause _ StatusOf.invalid_input h = ground arith
handle_error-domain message _ cause _ StatusOf.unauthenticated h = ground arith
handle_error-domain message _ cause _ StatusOf.permission_denied h = ground arith
handle_error-domain message _ cause _ StatusOf.resource_not_found h = ground arith
handle_error-domain message _ cause _ StatusOf.already_exists h = ground arith
handle_error-domain message _ cause _ StatusOf.invalid_state h = ground arith

-- A domain error of one of the six kinds, in any contexts and around any cause that has no
-- validation errors in it, becomes a response with the status of its kind and its own message: the
-- contexts and the cause are not told.
pub handle_error_status :
    (texts : List String) (message : String) (code : ErrorCode) (cause : Errors) (status : ℕ)
    → StatusOf code status
    → errors_as_any pick_validation cause ≡ none
    → handle_error (in_contexts texts (domain message code cause))
      ≡ handle_json status (client_err message status [])
handle_error_status texts message code cause status kind h =
    handle_error-in_contexts texts (domain message code cause)
    ∙ handle_error-domain message code cause status kind h
