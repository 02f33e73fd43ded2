-- ===== src/Web/Mux/Disclosure.antt =====
-- Who is shown a profile: the routes of internal/web/routes/routes.go behind the mux.
use go_auth_refresh_template.Base.{
  String, Option, some, none, ◌≡◌, ◌≢◌, arith, inl, inr, Option-cases, Bool-cases, ◌==◌, text_key,
  id_key,
}
use go_auth_refresh_template.Domain.{Config, uuid_nil}
use go_auth_refresh_template.Errors.{Error}
use go_auth_refresh_template.World.{Env, World, Outcome, ok, Action, pure, ◌>>=◌, from_outcome}
use go_auth_refresh_template.World.Laws.{outcome-cases}
use go_auth_refresh_template.Web.Http.{
  Request, Response, get_profile, text, login_response, verify_otp_response, send_otp_response,
  handle_json, write_header,
}
use go_auth_refresh_template.Web.Errors.Bodies.{handle_error-IsErrorBody}
use go_auth_refresh_template.Web.Errors.{handle_error}
use go_auth_refresh_template.Service
use go_auth_refresh_template.Web.Payload.{Codecs, receive}
use go_auth_refresh_template.Web.Handler
use go_auth_refresh_template.Web.Handler.{answer, missing_cookie}
use go_auth_refresh_template.Web.Cookie.{get_cookie, set_cookie, delete_cookie}

-- A response that shows no profile, and an action whose responses show none.
abbrev pub Silent : Response → Type 0
Silent response = (email username : String) → response.body ≢ get_profile email username

pub record NoProfile (m : Action Response) : Type 0 where
  pub silent : (w : World) {response : Response} → (m w).0 ≡ ok response → Silent response

pub handle_error-Silent : (e : Error) → Silent (handle_error e)
handle_error-Silent e email username h = elim (handle_error-IsErrorBody e) [
  | inl x ↦ ground arith
  | inr (message, code, causes, x) ↦ ground arith
]

answer-NoProfile : (m : Action Response) → NoProfile m → NoProfile (answer handle_error m)
answer-NoProfile m k = record {
  silent = λ w {response} h. elim (outcome-cases (m w).0) [
    | inl (a, x) ↦ k.silent w {response = response} (ground arith)
    | inr (inl (e, x)) ↦
        let is : response ≡ handle_error e = ground arith in rw is (handle_error-Silent e)
    | inr (inr (a, x)) ↦ ground arith
  ];
}

>>=-NoProfile :
    {A : Type 0} (m : Action A) (f : A → Action Response)
    → ((a : A) → NoProfile (f a))
    → NoProfile (m >>= f)
>>=-NoProfile m f k = record {
  silent = λ w {response} h. elim (outcome-cases (m w).0) [
    | inl (a, x) ↦ (k a).silent (m w).1 {response = response} (ground arith)
    | inr (inl (e, x)) ↦ ground arith
    | inr (inr (a, x)) ↦ ground arith
  ];
}

pub pure-NoProfile : (x : Response) → Silent x → NoProfile (pure x)
pure-NoProfile x k = record {
  silent = λ w {response} h. let is : response ≡ x = ground arith in rw is k;
}

maybe-NoProfile :
    {B : Type 0} (o : Option B) (m : Action Response) (f : B → Action Response)
    → NoProfile m
    → ((b : B) → NoProfile (f b))
    → NoProfile (elim o [ none ↦ m | some b ↦ f b ])
maybe-NoProfile none m f h₁ h₂ = h₁
maybe-NoProfile (some b) m f h₁ h₂ = h₂ b

pub swagger_ui-NoProfile :
    (template : String → Outcome String) (r : Request) → NoProfile (Handler.swagger_ui template r)
unfolding Handler.swagger_ui
swagger_ui-NoProfile template r = record {
  silent = λ w {response} h email username e.
      elim (outcome-cases (template "/swagger/openapi.yaml")) [
        | inl (a, x) ↦ ground arith
        | inr (inl (a, x)) ↦ ground arith
        | inr (inr (a, x)) ↦ ground arith
      ];
}

pub redirect_swagger-NoProfile : (r : Request) → NoProfile (Handler.redirect_swagger r)
unfolding Handler.redirect_swagger
redirect_swagger-NoProfile r = record {
  silent = λ w {response} h email username e. elim (Bool-cases (r.method == "GET")) [
    | inl x ↦ ground arith
    | inr x ↦ ground arith
  ];
}

-- The handlers that read a payload, call a service and answer.
handled-NoProfile :
    {P A : Type 0} (payload : Outcome P) (serve : P → Action A) (x : A → Response)
    → ((a : A) → Silent (x a))
    → NoProfile (answer handle_error (from_outcome payload >>= λ p. (serve p >>= λ a. pure (x a))))
handled-NoProfile payload serve x k = answer-NoProfile _ (
    >>=-NoProfile (from_outcome payload) (λ p. (serve p >>= λ a. pure (x a)))
      (λ p. >>=-NoProfile (serve p) (λ a. pure (x a)) (λ a. pure-NoProfile (x a) (k a))))

module _ (env : Env) (codecs : Codecs) (config : Config) where
  pub register_user-NoProfile :
      (r : Request) → NoProfile (Handler.register_user env codecs config r)
  unfolding Handler.register_user
  register_user-NoProfile r =
      handled-NoProfile (receive codecs.register_user r.body)
        (λ p.
          Service.Auth.register_user env config (record {
            id = uuid_nil;
            email = p.email;
            password = p.password;
            username = p.username;
          }))
        (λ _. write_header 201) (λ a email username e. ground arith)

  pub login-NoProfile : (r : Request) → NoProfile (Handler.login env codecs config r)
  unfolding Handler.login set_cookie
  login-NoProfile r =
      handled-NoProfile (receive codecs.login r.body)
        (λ p. Service.Auth.login env config p.email p.password)
        (λ t. set_cookie config t.1 (handle_json 200 (login_response t.0)))
        (λ a email username e. ground arith)

  pub send_otp-NoProfile : (r : Request) → NoProfile (Handler.send_otp env codecs config r)
  unfolding Handler.send_otp
  send_otp-NoProfile r =
      handled-NoProfile (receive codecs.send_otp r.body)
        (λ p. Service.Otp.send_code env config p.email)
        (λ id. handle_json 200 (send_otp_response id)) (λ a email username e. ground arith)

  pub login_with_otp-NoProfile :
      (r : Request) → NoProfile (Handler.login_with_otp env codecs config r)
  unfolding Handler.login_with_otp set_cookie
  login_with_otp-NoProfile r =
      handled-NoProfile (receive codecs.verify_otp r.body)
        (λ p. Service.Auth.login_with_otp env config p.email p.code)
        (λ t. set_cookie config t.1 (handle_json 200 (login_response t.0)))
        (λ a email username e. ground arith)

  pub refresh-NoProfile : (r : Request) → NoProfile (Handler.refresh env codecs config r)
  unfolding Handler.refresh set_cookie
  refresh-NoProfile r =
      maybe-NoProfile (get_cookie r) (pure (handle_error missing_cookie))
        (λ value. answer handle_error (
          Service.RefreshToken.refresh env config value >>= λ t.
          pure (set_cookie config t.1 (handle_json 200 (text t.0)))))
        (pure-NoProfile _ (handle_error-Silent missing_cookie))
        (λ value. answer-NoProfile _ (
          >>=-NoProfile (Service.RefreshToken.refresh env config value)
            (λ t. pure (set_cookie config t.1 (handle_json 200 (text t.0))))
            (λ t. pure-NoProfile _ (λ email username e. ground arith))))

  pub verify-NoProfile :
      (r : Request) → NoProfile (Handler.verify_password_reset_code env codecs config r)
  unfolding Handler.verify_password_reset_code
  verify-NoProfile r =
      handled-NoProfile (receive codecs.verify_password_reset_code r.body)
        (λ p. Service.Otp.verify_password_reset_code env config p.code p.challenge_id)
        (λ token. handle_json 200 (verify_otp_response token)) (λ a email username e. ground arith)

  pub reset_password-NoProfile :
      (r : Request) → NoProfile (Handler.reset_password env codecs config r)
  unfolding Handler.reset_password
  reset_password-NoProfile r =
      handled-NoProfile (receive codecs.reset_password r.body)
        (λ p. Service.Auth.reset_password env config p.reset_token p.password)
        (λ _. write_header 204) (λ a email username e. ground arith)

  pub logout-NoProfile : (r : Request) → NoProfile (Handler.logout env codecs config r)
  unfolding Handler.logout delete_cookie get_cookie
  logout-NoProfile r = record {
    silent = λ w {response} h email username e. elim (Option-cases (get_cookie r)) [
      | inl none_sent ↦ ground arith
      | inr (value, sent) ↦
          elim (outcome-cases (Service.RefreshToken.revoke env config value w).0) [
            | inl (a, x) ↦ ground arith
            | inr (inl (a, x)) ↦ handle_error-Silent a email username (ground arith)
            | inr (inr (a, x)) ↦ ground arith
          ]
    ];
  }
