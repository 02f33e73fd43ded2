-- ===== src/Web/Server.antt =====
-- internal/web/server/server.go and internal/web/routes/routes.go, with what they use of
-- `http.ServeMux`: a path is taken as the mux has cleaned and decoded it.
pub mod Order
use go_auth_refresh_template.Base.{ℕ, zero, suc, String, List, [], ◌∷◌, text_key, length}
use go_auth_refresh_template.Domain.{Config, ApiOptions, Duration}
use go_auth_refresh_template.World.{Env, Outcome}
use go_auth_refresh_template.Web.Http.{Handler}
use go_auth_refresh_template.Web.Payload.{Codecs}
use go_auth_refresh_template.Web.Handler
use go_auth_refresh_template.Web.Middleware.{authenticate}

-- `type Middleware func(http.Handler) http.Handler`
abbrev pub Middleware : Type 0
Middleware = Handler → Handler

-- `middlewares[i](handler)`; the loop stays in range.
unfoldable pub apply_at : List Middleware → ℕ → Handler → Handler
apply_at [] i handler = handler
apply_at (m ∷ ms) zero handler = m handler
apply_at (m ∷ ms) (suc i) handler = apply_at ms i handler

-- `for i := len(middlewares) - 1; i >= 0; i--`, where `suc i` rounds are left.
unfoldable pub wrap_handler : ℕ → List Middleware → Handler → Handler
unfolding apply_at
wrap_handler zero middlewares handler = handler
wrap_handler (suc i) middlewares handler =
    wrap_handler i middlewares (apply_at middlewares i handler)

-- The patterns in use: a path, a path that ends in "/" with all below it, and "prefix{id}".
pub data Pattern : Type 0 where
  exact subtree one_segment : String → Pattern

pub record Route : Type 0 where
  pub method : String
  pub pattern : Pattern
  pub handler : Handler

-- `Server.handle`, as the route that it adds.
unfoldable pub handle : String → Pattern → Handler → List Middleware → Route
unfolding wrap_handler
handle method pattern handler_func middlewares = record {
  method = method;
  pattern = pattern;
  handler = wrap_handler (length middlewares) middlewares handler_func;
}

unfoldable pub get : Pattern → Handler → List Middleware → Route
unfolding handle
get = handle "GET"

unfoldable pub post : Pattern → Handler → List Middleware → Route
unfolding handle
post = handle "POST"

unfoldable pub put : Pattern → Handler → List Middleware → Route
unfolding handle
put = handle "PUT"

unfoldable pub patch : Pattern → Handler → List Middleware → Route
unfolding handle
patch = handle "PATCH"

unfoldable pub delete : Pattern → Handler → List Middleware → Route
unfolding handle
delete = handle "DELETE"

unfoldable pub options : Pattern → Handler → List Middleware → Route
unfolding handle
options = handle "OPTIONS"

unfoldable pub head : Pattern → Handler → List Middleware → Route
unfolding handle
head = handle "HEAD"

-- `Server`, with the routes of its mux.
pub record Server : Type 0 where
  pub api_options : ApiOptions
  pub mux : List Route

-- `New` of server.go
abbrev pub new_server : ApiOptions → Server
new_server api_options = record { api_options = api_options; mux = [] }

-- What `Run` hands to `ListenAndServe`, of `http.Server`.
pub record HttpServer : Type 0 where
  pub addr : String
  pub handler : List Route
  pub read_header_timeout : Duration
  pub read_timeout : Duration
  pub write_timeout : Duration
  pub idle_timeout : Duration

abbrev pub http_server : Server → String → HttpServer
http_server server addr = record {
  addr = addr;
  handler = server.mux;
  read_header_timeout = server.api_options.read_header_timeout;
  read_timeout = server.api_options.read_timeout;
  write_timeout = server.api_options.write_timeout;
  idle_timeout = server.api_options.idle_timeout;
}

-- `SetupRoutes`
module _ (env : Env) (codecs : Codecs) (config : Config) (template : String → Outcome String)
    (spec : String) where
  unfoldable pub setup_routes : List Route
  unfolding get post
  setup_routes =
      get (exact "/swagger") Handler.redirect_swagger []
      ∷ get (subtree "/swagger/") (Handler.swagger_ui template) []
      ∷ get (exact "/swagger/openapi.yaml") (Handler.swagger_spec spec) []
      ∷ post (exact "/auth/register") (Handler.register_user env codecs config) []
      ∷ post (exact "/auth/login") (Handler.login env codecs config) []
      ∷ post (exact "/auth/otp/send") (Handler.send_otp env codecs config) []
      ∷ post (exact "/auth/login/otp") (Handler.login_with_otp env codecs config) []
      ∷ post (exact "/auth/logout") (Handler.logout env codecs config) []
      ∷ post (exact "/auth/password/verify") (Handler.verify_password_reset_code env codecs config)
          []
      ∷ post (exact "/auth/password/reset") (Handler.reset_password env codecs config) []
      ∷ get (one_segment "/user/") (Handler.get_user_profile env codecs config)
          (authenticate env config ∷ [])
      ∷ post (exact "/refresh") (Handler.refresh env codecs config) []
      ∷ []
