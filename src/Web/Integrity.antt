-- ===== src/Web/Integrity.antt =====
-- What the statements keep of the tables, over the routes of internal/web/routes/routes.go.
use mathlib.Core.Path.{subst}
use go_auth_refresh_template.Base.{String, Option, none, some, ◌≡◌, inl, inr, arith, All, ℕ}
use go_auth_refresh_template.Domain.{Config}
use go_auth_refresh_template.Domain
use go_auth_refresh_template.Errors.{Error}
use go_auth_refresh_template.Database.{Database}
use go_auth_refresh_template.Database.Preserved.{Preserved}
use go_auth_refresh_template.World.{Env, World, Outcome, Action}
use go_auth_refresh_template.World.Laws.{outcome-cases}
use go_auth_refresh_template.World.Invariants.{
  Keeps, Since, still, keeping, Keeps-pure, Keeps-raise, Keeps-maybe,
}
use go_auth_refresh_template.Repository.Integrity.{stored, get_by_id-Keeps}
use go_auth_refresh_template.Service.Jwt.{validate_access_token}
use go_auth_refresh_template.Service.User.{get_profile, or_not_found}
use go_auth_refresh_template.Service.Integrity.{
  register_user-Keeps, login-Keeps, send_code-Keeps, login_with_otp-Keeps, refresh-Keeps,
  revoke-Keeps, verify_password_reset_code-Keeps, reset_password-Keeps,
}
use go_auth_refresh_template.Web.Http.{Request, Response, Handler}
use go_auth_refresh_template.Web.Cookie.{get_cookie}
use go_auth_refresh_template.Web.Payload.{Codecs}
use go_auth_refresh_template.Web.Handler
use go_auth_refresh_template.Web.Handler.{answer}
use go_auth_refresh_template.Web.Middleware.{authenticate, authorize}
use go_auth_refresh_template.Web.Server.{setup_routes, wrap_handler}

answer-Keeps :
    {Q : World → Type 0} (on_error : Error → Response) (m : Action Response)
    → Keeps Q m
    → Keeps Q (answer on_error m)
answer-Keeps {Q} on_error m k = record {
  kept = λ w q.
      let is : (m w).1 ≡ (answer on_error m w).1 = elim (outcome-cases (m w).0) [
        | inl (a, e) ↦ ground arith
        | inr (inl (x, e)) ↦ ground arith
        | inr (inr (x, e)) ↦ ground arith
      ] in
      subst Q is (k.kept w q);
}

module _ (env : Env) (codecs : Codecs) (config : Config) {start : ℕ} {P : Database → Type 0}
    (s : Preserved (stored env config start) P) where
  register_user-route :
      (r : Request) → Keeps (Since start P) (Handler.register_user env codecs config r)
  unfolding Handler.register_user
  register_user-route r = search (keeping, answer-Keeps, register_user-Keeps) depth 12

  login-route : (r : Request) → Keeps (Since start P) (Handler.login env codecs config r)
  unfolding Handler.login
  login-route r = search (keeping, answer-Keeps, login-Keeps) depth 12

  send_otp-route : (r : Request) → Keeps (Since start P) (Handler.send_otp env codecs config r)
  unfolding Handler.send_otp
  send_otp-route r = search (keeping, answer-Keeps, send_code-Keeps) depth 12

  login_with_otp-route :
      (r : Request) → Keeps (Since start P) (Handler.login_with_otp env codecs config r)
  unfolding Handler.login_with_otp
  login_with_otp-route r = search (keeping, answer-Keeps, login_with_otp-Keeps) depth 12

  refresh-route : (r : Request) → Keeps (Since start P) (Handler.refresh env codecs config r)
  unfolding Handler.refresh
  refresh-route r =
      Keeps-maybe (get_cookie r) _ _ (Keeps-pure _)
        (λ value. search (keeping, answer-Keeps, refresh-Keeps) depth 12)

  logout-route : (r : Request) → Keeps (Since start P) (Handler.logout env codecs config r)
  unfolding Handler.logout
  logout-route r =
      Keeps-maybe (get_cookie r) _ _ (Keeps-pure _)
        (λ value. search (keeping, answer-Keeps, revoke-Keeps) depth 12)

  verify_password_reset_code-route :
      (r : Request) → Keeps (Since start P) (Handler.verify_password_reset_code env codecs config r)
  unfolding Handler.verify_password_reset_code
  verify_password_reset_code-route r =
      search (keeping, answer-Keeps, verify_password_reset_code-Keeps) depth 12

  reset_password-route :
      (r : Request) → Keeps (Since start P) (Handler.reset_password env codecs config r)
  unfolding Handler.reset_password
  reset_password-route r = search (keeping, answer-Keeps, reset_password-Keeps) depth 12

  or_not_found-Keeps : (user : Option Domain.User) → Keeps (Since start P) (or_not_found user)
  or_not_found-Keeps none = Keeps-raise _
  or_not_found-Keeps (some user) = Keeps-pure user

  get_profile-Keeps : (id : String) → Keeps (Since start P) (get_profile env id)
  unfolding get_profile
  get_profile-Keeps id =
      Keeps-maybe (env.uuid_parse id) _ _ (Keeps-raise _)
        (λ uuid. search (keeping, get_by_id-Keeps, or_not_found-Keeps) depth 12)

  get_user_profile-route :
      (r : Request) → Keeps (Since start P) (Handler.get_user_profile env codecs config r)
  unfolding Handler.get_user_profile
  get_user_profile-route r = search (keeping, answer-Keeps, get_profile-Keeps) depth 12

  validate_access_token-Keeps :
      (token : String) → Keeps (Since start P) (validate_access_token env config.jwt token)
  unfolding validate_access_token
  validate_access_token-Keeps token = search keeping depth 12

  authorize-Keeps : (r : Request) → Keeps (Since start P) (authorize env config r)
  unfolding authorize
  authorize-Keeps r = search (keeping, validate_access_token-Keeps) depth 12

  authenticate-Keeps :
      (next : Handler) (r : Request)
      → Keeps (Since start P) (next r)
      → Keeps (Since start P) (authenticate env config next r)
  unfolding authenticate
  authenticate-Keeps next r k = record {
    kept = λ w q.
        let (result, w') = authorize env config r w in
        let stays = (authorize-Keeps r).kept w q in
        elim (outcome-cases result) [
          | inl (claims, e) ↦
              let is : (next r w').1 ≡ (authenticate env config next r w).1 = ground arith in
              subst (Since start P) is (k.kept w' stays)
          | inr (inl (x, e)) ↦
              let is : w' ≡ (authenticate env config next r w).1 = ground arith in
              subst (Since start P) is stays
          | inr (inr (x, e)) ↦
              let is : w' ≡ (authenticate env config next r w).1 = ground arith in
              subst (Since start P) is stays
        ];
  }

  swagger_ui-route :
      (template : String → Outcome String) (r : Request)
      → Keeps (Since start P) (Handler.swagger_ui template r)
  unfolding Handler.swagger_ui
  swagger_ui-route template r = record {
    kept = λ w q. elim (outcome-cases (template "/swagger/openapi.yaml")) [
      | inl (a, e) ↦ still w _ (ground arith) (ground arith) q
      | inr (inl (x, e)) ↦ still w _ (ground arith) (ground arith) q
      | inr (inr (x, e)) ↦ still w _ (ground arith) (ground arith) q
    ];
  }

  -- Every route that the server sets up keeps what the statements keep.
  pub routes-keep :
      (template : String → Outcome String) (spec : String)
      → All
          (λ route. (r : Request) → Keeps (Since start P) (route.handler r))
          (setup_routes env codecs config template spec)
  unfolding setup_routes wrap_handler Handler.redirect_swagger Handler.swagger_spec
  routes-keep template spec = (
    λ r. record { kept = λ w q. q },
    (
      swagger_ui-route template,
      (
        λ r. record { kept = λ w q. q },
        (
          register_user-route,
          (
            login-route,
            (
              send_otp-route,
              (
                login_with_otp-route,
                (
                  logout-route,
                  (
                    verify_password_reset_code-route,
                    (
                      reset_password-route,
                      (λ r. authenticate-Keeps _ r (get_user_profile-route r), (refresh-route, tt)),
                    ),
                  ),
                ),
              ),
            ),
          ),
        ),
      ),
    ),
  )
