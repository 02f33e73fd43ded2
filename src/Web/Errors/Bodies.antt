-- ===== src/Web/Errors/Bodies.antt =====
-- What `HandleError` of internal/web/handler/utils.go writes as a body.
use go_auth_refresh_template.Base.{ℕ, String, List, ◌≡◌, ◌⊎◌, inl, inr, arith, Option-cases}
use go_auth_refresh_template.Errors.{
  Cause, Error, DomainError, errors_as, pick_validation, pick_domain, pick_client,
}
use go_auth_refresh_template.Web.Http.{Body, null, client_err}
use go_auth_refresh_template.Web.Errors.{
  handle_error, domain_response, new_client_error_from_domain_error,
}

-- The body of an error: `null`, or the message, the code and the causes.
abbrev pub IsErrorBody : Body → Type 0
IsErrorBody body =
    (body ≡ null)
    ⊎ ((message : String) × (code : ℕ) × (causes : List Cause) × (body
          ≡ client_err message code causes))

domain_response-IsErrorBody : (d : DomainError) → IsErrorBody (domain_response d).body
domain_response-IsErrorBody d = elim (Option-cases (new_client_error_from_domain_error d)) [
  | inl x ↦ inl (ground arith)
  | inr (c, x) ↦ inr (c.message, c.code, c.causes, ground arith)
]

pub handle_error-IsErrorBody : (e : Error) → IsErrorBody (handle_error e).body
unfolding handle_error
handle_error-IsErrorBody e = elim (Option-cases (errors_as pick_validation e)) [
  | inr (fields, x) ↦ inr ("one or more fields are invalid", 400, fields, ground arith)
  | inl x ↦ elim (Option-cases (errors_as pick_domain e)) [
    | inr (d, y) ↦
        let is : handle_error e ≡ domain_response d = ground arith in
        rw is (domain_response-IsErrorBody d)
    | inl y ↦ elim (Option-cases (errors_as pick_client e)) [
      | inr (c, z) ↦ inr (c.message, c.code, c.causes, ground arith)
      | inl z ↦ inl (ground arith)
    ]
  ]
]
