-- ===== src/Web/Mux/Guarded.antt =====
-- Who is shown a profile, over all routes of internal/web/routes/routes.go.
use go_auth_refresh_template.Base.{
  String, true, some, ◌≡◌, refl, arith, All, inl, inr, Option-cases, find, ◌==◌, text_key, id_key,
}
use go_auth_refresh_template.Domain
use go_auth_refresh_template.Domain.{Uuid, Config}
use go_auth_refresh_template.World.{Env, World, Outcome, ok, Action, pure, wrap_error, next_draw}
use go_auth_refresh_template.World.Laws.{outcome-cases, >>=-ok, wrap_error-ok}
use go_auth_refresh_template.Repository
use go_auth_refresh_template.Repository.User.Laws.{get_by_id_found}
use go_auth_refresh_template.Service
use go_auth_refresh_template.Service.User.{or_not_found}
use go_auth_refresh_template.Service.Jwt.{after_prefix}
use go_auth_refresh_template.Web.Payload.{Codecs}
use go_auth_refresh_template.Web.Handler
use go_auth_refresh_template.Web.Middleware.{authenticate, authorize}
use go_auth_refresh_template.Web.Middleware.Laws.{Authorized, authenticate_guards}
use go_auth_refresh_template.Web.Server.{one_segment, Route, setup_routes, wrap_handler}
use go_auth_refresh_template.Web.Mux.Choices.{dispatch-All}
use go_auth_refresh_template.Web.Mux.{dispatch, matches, with_path_value}
use go_auth_refresh_template.Web.Mux.Disclosure.{
  NoProfile, handle_error-Silent, pure-NoProfile, swagger_ui-NoProfile, redirect_swagger-NoProfile,
  register_user-NoProfile, login-NoProfile, send_otp-NoProfile, login_with_otp-NoProfile,
  refresh-NoProfile, verify-NoProfile, reset_password-NoProfile, logout-NoProfile,
}
use go_auth_refresh_template.Web.Http.{Request, Response, Handler, get_profile, write_header}

module _ (env : Env) (codecs : Codecs) (config : Config) where
  -- The stored user whose profile is shown to a request.
  abbrev pub IsStored : Request → World → String → String → Type 0
  IsStored r w email username =
      (id : Uuid) × (user : Domain.User) × (env.uuid_parse r.path_id ≡ some id)
      × (find (λ u. u.id == id) w.db.users ≡ some user)
      × (user.email ≡ email)
      × (user.username ≡ username)

  get_profile-ok :
      (text : String) (w : World) {user : Domain.User} {w' : World}
      → Service.User.get_profile env text w ≡ (ok user, w')
      → (id : Uuid) × (env.uuid_parse text ≡ some id)
        × (find (λ u. u.id == id) w.db.users ≡ some user)
  unfolding Service.User.get_profile
  get_profile-ok text w {user} {w'} h = elim (Option-cases (env.uuid_parse text)) [
    | inl x ↦ ground arith
    | inr (id, x) ↦
        let search = Repository.User.get_by_id env id in
        let (o, w₁, ran, rest) =
          >>=-ok (wrap_error "fetching user from repository by ID" search) or_not_found w {b = user}
            {w' = w'} (ground arith) in
        elim (Option-cases o) [
          | inl absent ↦ ground arith
          | inr (u, is) ↦
              let (known, step) =
                get_by_id_found env w {w' = w₁} id u
                  (rw is at (wrap_error-ok "fetching user from repository by ID" search w ran)) in
              let same : u ≡ user = ground arith in (id, x, rw same at known)
        ]
  ]

  get_user_profile-shows :
      (r : Request) (w : World) {response : Response} {email username : String}
      → (Handler.get_user_profile env codecs config r w).0 ≡ ok response
      → response.body ≡ get_profile email username
      → IsStored r w email username
  unfolding Handler.get_user_profile
  get_user_profile-shows r w {response} {email} {username} h shows =
      elim (outcome-cases (Service.User.get_profile env r.path_id w).0) [
        | inl (user, x) ↦
            let (id, parsed, known) =
              get_profile-ok r.path_id w {user = user}
                {w' = (Service.User.get_profile env r.path_id w).1} (ground arith) in
            (id, user, parsed, known, ground arith, ground arith)
        | inr (inl (e, x)) ↦ absurd (handle_error-Silent e email username (ground arith))
        | inr (inr (s, x)) ↦ ground arith
      ]

  abbrev nothing : Handler
  nothing r = pure (write_header 204)

  refused-NoProfile : (r : Request) → NoProfile (authenticate env config nothing r)
  unfolding authenticate
  refused-NoProfile r = record {
    silent = λ w {response} h email username e. elim (outcome-cases (authorize env config r w).0) [
      | inl (claims, x) ↦ ground arith
      | inr (inl (c, x)) ↦ absurd (handle_error-Silent c email username (ground arith))
      | inr (inr (s, x)) ↦ ground arith
    ];
  }

  -- The request carries a valid token of the user whose stored profile is shown.
  abbrev pub IsEntitled : Request → World → String → String → Type 0
  IsEntitled r w email username = Authorized env config r w × IsStored r w email username

  authenticated_profile :
      (r : Request) (w : World) {response : Response} {email username : String}
      → (authenticate env config (Handler.get_user_profile env codecs config) r w).0 ≡ ok response
      → response.body ≡ get_profile email username
      → IsEntitled r w email username
  authenticated_profile r w {response} {email} {username} h shows =
      let profile = Handler.get_user_profile env codecs config in
      elim (authenticate_guards env config profile nothing r w) [
        | inl (carries, runs) ↦ (
          carries,
          get_user_profile-shows r (next_draw w) {response = response} (ground arith) shows,
        )
        | inr same ↦ absurd (
            (refused-NoProfile r).silent w {response = response} (ground arith) email username
              shows)
      ]

  -- What a route answers: no profile, or, behind "/user/", one to the user.
  record Discloses (r : Request) (route : Route) : Type 0 where
    discloses :
        (w : World) {response : Response} {email username : String}
        → (route.handler (with_path_value route.pattern r) w).0 ≡ ok response
        → response.body ≡ get_profile email username
        → (route.pattern ≡ one_segment "/user/")
          × IsEntitled (with_path_value route.pattern r) w email username

  silent_route :
      (r : Request) (route : Route)
      → NoProfile (route.handler (with_path_value route.pattern r))
      → Discloses r route
  silent_route r route k = record {
    discloses = λ w {response} {email} {username} h shows.
        absurd (k.silent w {response = response} h email username shows);
  }

  module _ (template : String → Outcome String) (spec : String) where
    routes_disclose :
        (r : Request) → All (Discloses r) (setup_routes env codecs config template spec)
    unfolding setup_routes wrap_handler Handler.swagger_spec
    routes_disclose r = (
      silent_route r _ (redirect_swagger-NoProfile r),
      (
        silent_route r _ (swagger_ui-NoProfile template r),
        (
          silent_route r _ (pure-NoProfile _ (λ email username e. ground arith)),
          (
            silent_route r _ (register_user-NoProfile env codecs config r),
            (
              silent_route r _ (login-NoProfile env codecs config r),
              (
                silent_route r _ (send_otp-NoProfile env codecs config r),
                (
                  silent_route r _ (login_with_otp-NoProfile env codecs config r),
                  (
                    silent_route r _ (logout-NoProfile env codecs config r),
                    (
                      silent_route r _ (verify-NoProfile env codecs config r),
                      (
                        silent_route r _ (reset_password-NoProfile env codecs config r),
                        (
                          record {
                            discloses = λ w {response} {email} {username} h shows.
                                (refl, authenticated_profile _ w {response = response} h shows);
                          },
                          (silent_route r _ (refresh-NoProfile env codecs config r), tt),
                        ),
                      ),
                    ),
                  ),
                ),
              ),
            ),
          ),
        ),
      ),
    )

module _ (env : Env) (codecs : Codecs) (config : Config) (template : String → Outcome String)
    (spec : String) where
  -- Whatever route the mux chooses: a request that is shown a profile has a path "/user/" and one
  -- segment, and a bearer token that the parser accepts as valid with the key of this server, of the
  -- user whose id is that segment; the profile is the stored one of that user.
  pub profile_needs_token :
      (r : Request) (w : World) {m : Action Response} {response : Response}
      {email username : String}
      → dispatch (setup_routes env codecs config template spec) r ≡ some m
      → (m w).0 ≡ ok response
      → response.body ≡ get_profile email username
      → (matches (one_segment "/user/") r.path ≡ true)
        × IsEntitled env codecs config
            (record r { path_id = after_prefix r.path "/user/" })
            w
            email
            username
  profile_needs_token r w {m} {response} {email} {username} runs h shows =
      let (route, k, is_for, same) =
        dispatch-All (Discloses env codecs config r) (setup_routes env codecs config template spec)
          r {m = m} (routes_disclose env codecs config template spec r) runs in
      let (pattern, entitled) =
        k.discloses w {response = response} {email = email} {username = username} (rw same at h)
          shows in
      (rw pattern at is_for, rw pattern at entitled)
