-- ===== src/Web/Mux/Routes.antt =====
-- Which handler of internal/web/handler serves a request, by internal/web/routes/routes.go.
use Prim.Native.String.{◌++◌}
use text.Mathlib.Text.{starts_with}
use text.Mathlib.TextPositions.{starts_with-append}
use go_auth_refresh_template.Base.{
  String, true, false, Option, none, some, ◌≡◌, refl, arith, inl, inr, Bool-cases, ==_iff, ◌==◌,
  text_key, if◌then◌else◌, List, [], ◌∷◌, All, any, ◌&&◌,
}
use go_auth_refresh_template.Domain.{Config}
use go_auth_refresh_template.World.{Env, Outcome, Action}
use go_auth_refresh_template.Service.Jwt.{after_prefix}
use go_auth_refresh_template.Service.Jwt.RoundTrip.{after_prefix-append}
use go_auth_refresh_template.Web.Middleware.{authenticate}
use go_auth_refresh_template.Web.Mux.Paths.{not_swagger, not_with_slash}
use go_auth_refresh_template.Web.Payload.{Codecs}
use go_auth_refresh_template.Web.Http.{Request, Response, Handler}
use go_auth_refresh_template.Web.Handler
use go_auth_refresh_template.Web.Server.{Route, setup_routes, wrap_handler}
use go_auth_refresh_template.Web.Mux.{
  best, best_or_get, choose, dispatch, run_choice, is_segment, matches,
}

best-none :
    (routes : List Route) (method path : String)
    → All (λ r. (r.method == method && matches r.pattern path) ≡ false) routes
    → best routes method path ≡ none
best-none [] method path h = refl
best-none (r ∷ rs) method path (h, hs) = rw (h, best-none rs method path hs) refl

-- Where no route is for the path, nor for the path with a slash after it, no handler runs.
nothing_chosen :
    (r : Request) (routes : List Route) (method path : String)
    → best_or_get routes method path ≡ none
    → best_or_get routes method (path ++ "/") ≡ none
    → run_choice r (choose routes method path) ≡ none
nothing_chosen r routes method path a b =
    elim (Bool-cases (any (λ route. matches route.pattern path) routes)) [
      | inl e ↦ ground arith
      | inr e ↦ ground arith
    ]

module _ (env : Env) (codecs : Codecs) (config : Config) where
  -- The handler of a POST request, by its path.
  abbrev pub post_handler : String → Option Handler
  post_handler path =
      if path == "/auth/register"
      then some (Handler.register_user env codecs config)
      else if path == "/auth/login"
      then some (Handler.login env codecs config)
      else if path == "/auth/login/otp"
      then some (Handler.login_with_otp env codecs config)
      else if path == "/auth/otp/send"
      then some (Handler.send_otp env codecs config)
      else if path == "/auth/password/verify"
      then some (Handler.verify_password_reset_code env codecs config)
      else if path == "/auth/password/reset"
      then some (Handler.reset_password env codecs config)
      else if path == "/auth/logout"
      then some (Handler.logout env codecs config)
      else if path == "/refresh"
      then some (Handler.refresh env codecs config)
      else none

  abbrev pub run_handler : Request → Option Handler → Option (Action Response)
  run_handler r none = none
  run_handler r (some h) = some (h r)

  module _ (template : String → Outcome String) (spec : String) (r : Request) where
    abbrev routes : List Route
    routes = setup_routes env codecs config template spec

    -- At a path.
    abbrev Serves : String → Type 0
    Serves path = run_choice r (choose routes "POST" path) ≡ run_handler r (post_handler path)

    same_path : (path p : String) → Serves p → (path == p) ≡ true → Serves path
    same_path path p s e = let is : path ≡ p = (==_iff path p).0 e in rw is s

    -- At a path that is none of the table.
    abbrev IsOther : String → Type 0
    IsOther path =
        ((path == "/auth/register") ≡ false)
        × ((path == "/auth/login") ≡ false)
        × ((path == "/auth/login/otp") ≡ false)
        × ((path == "/auth/otp/send") ≡ false)
        × ((path == "/auth/password/verify") ≡ false)
        × ((path == "/auth/password/reset") ≡ false)
        × ((path == "/auth/logout") ≡ false)
        × ((path == "/refresh") ≡ false)

    other_best : (path : String) → IsOther path → best_or_get routes "POST" path ≡ none
    unfolding setup_routes
    other_best path (a, b, c, d, e, f, g, h) =
        let unmatched =
          best-none routes "POST" path
            (refl, (refl, (refl, (a, (b, (d, (c, (g, (e, (f, (refl, (h, tt)))))))))))) in
        ground arith

    append-IsOther : (path : String) → IsOther (path ++ "/")
    append-IsOther path = (
      not_with_slash path "/auth/register" refl,
      not_with_slash path "/auth/login" refl,
      not_with_slash path "/auth/login/otp" refl,
      not_with_slash path "/auth/otp/send" refl,
      not_with_slash path "/auth/password/verify" refl,
      not_with_slash path "/auth/password/reset" refl,
      not_with_slash path "/auth/logout" refl,
      not_with_slash path "/refresh" refl,
    )

    other_choice : (path : String) → IsOther path → Serves path
    other_choice path (a, b, c, d, e, f, g, h) =
        rw (a, b, c, d, e, f, g, h)
          (nothing_chosen r routes "POST" path (other_best path (a, b, c, d, e, f, g, h))
            (other_best (path ++ "/") (append-IsOther path)))

    post_choice : (path : String) → Serves path
    unfolding setup_routes
    post_choice path = elim (Bool-cases (path == "/auth/register")) [
      | inl e ↦ same_path path "/auth/register" refl e
      | inr a ↦ elim (Bool-cases (path == "/auth/login")) [
        | inl e ↦ same_path path "/auth/login" refl e
        | inr b ↦ elim (Bool-cases (path == "/auth/login/otp")) [
          | inl e ↦ same_path path "/auth/login/otp" refl e
          | inr c ↦ elim (Bool-cases (path == "/auth/otp/send")) [
            | inl e ↦ same_path path "/auth/otp/send" refl e
            | inr d ↦ elim (Bool-cases (path == "/auth/password/verify")) [
              | inl e ↦ same_path path "/auth/password/verify" refl e
              | inr f ↦ elim (Bool-cases (path == "/auth/password/reset")) [
                | inl e ↦ same_path path "/auth/password/reset" refl e
                | inr g ↦ elim (Bool-cases (path == "/auth/logout")) [
                  | inl e ↦ same_path path "/auth/logout" refl e
                  | inr h ↦ elim (Bool-cases (path == "/refresh")) [
                    | inl e ↦ same_path path "/refresh" refl e
                    | inr i ↦ other_choice path (a, b, c, d, f, g, h, i)
                  ]
                ]
              ]
            ]
          ]
        ]
      ]
    ]

  module _ (template : String → Outcome String) (spec : String) where
    -- Every POST request runs the handler that the table `post_handler` names for its path, and no
    -- handler where it names none; and a GET request for "/user/" and one segment, which is not empty
    -- and has no slash, runs the handler of the profile behind the authentication, with the segment
    -- as the value of "id".
    pub dispatch_lem :
        (r : Request) (id : String)
        → is_segment id ≡ true
        → (dispatch (setup_routes env codecs config template spec) (record r { method = "POST" })
            ≡ run_handler (record r { method = "POST" }) (post_handler r.path))
          × (dispatch
                (setup_routes env codecs config template spec)
                (record r { method = "GET"; path = "/user/" ++ id })
              ≡ some (
                  authenticate env config
                    (Handler.get_user_profile env codecs config)
                    (record r { method = "GET"; path = "/user/" ++ id; path_id = id })))
    unfolding setup_routes wrap_handler
    dispatch_lem r id segment = (
      post_choice template spec (record r { method = "POST" }) r.path,
      let (a, b, c) = not_swagger id in
          let mine : starts_with ("/user/" ++ id) "/user/" ≡ true =
            starts_with-append "/user/" id in
          let value : after_prefix ("/user/" ++ id) "/user/" ≡ id =
            after_prefix-append "/user/" id in
          ground arith,
    )
