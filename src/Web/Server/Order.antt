-- ===== src/Web/Server/Order.antt =====
-- In which order the middlewares of internal/web/server/server.go run.
use go_auth_refresh_template.Base.{ℕ, zero, suc, String, List, [], ◌∷◌, ◌≡◌, refl, ap, ◌∙◌, length}
use go_auth_refresh_template.Web.Http.{Handler}
use go_auth_refresh_template.Web.Server.{Middleware, Pattern, wrap_handler, handle}

-- The handler within the middlewares, the first one outermost.
abbrev pub within : List Middleware → Handler → Handler
within [] handler = handler
within (m ∷ ms) handler = m (within ms handler)

wrap_handler-cons :
    (i : ℕ) (m : Middleware) (ms : List Middleware) (handler : Handler)
    → wrap_handler (suc i) (m ∷ ms) handler ≡ m (wrap_handler i ms handler)
unfolding wrap_handler
wrap_handler-cons zero m ms handler = refl
wrap_handler-cons (suc i) m ms handler = wrap_handler-cons i m ms _

wrap_handler-within :
    (ms : List Middleware) (handler : Handler)
    → wrap_handler (length ms) ms handler ≡ within ms handler
unfolding wrap_handler
wrap_handler-within [] handler = refl
wrap_handler-within (m ∷ ms) handler =
    wrap_handler-cons (length ms) m ms handler ∙ ap m (wrap_handler-within ms handler)

-- The loop over the middlewares from the last to the first makes a handler in which the first one is
-- outermost: a request passes them in the order in which they were given, and then the handler.
pub handle_lem :
    (method : String) (pattern : Pattern) (handler : Handler) (ms : List Middleware)
    → (handle method pattern handler ms).handler ≡ within ms handler
unfolding handle
handle_lem method pattern handler ms = wrap_handler-within ms handler
