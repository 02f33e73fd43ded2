-- ===== src/Web/Mux.antt =====
-- What internal/web/server/server.go uses of `http.ServeMux`: the choice of a route by the method and
-- the path. A path is taken as the mux has cleaned it, and has no escapes.
pub mod Choices
pub mod Served
pub mod Guarded
mod Paths
pub mod Routes
pub mod Disclosure
use Prim.Native.Char.{code}
use Prim.Native.String.{◌++◌, len}
use text.Mathlib.Text.{starts_with}
use go_auth_refresh_template.Base.{
  String, Bool, true, false, Option, none, some, List, [], ◌∷◌, ◌==◌, text_key, not, ◌&&◌, ◌||◌,
  ltb, nat_eq, any, if◌then◌else◌,
}
use go_auth_refresh_template.World.{Action, pure}
use go_auth_refresh_template.Service.Jwt.{after_prefix}
use go_auth_refresh_template.Web.Http.{Request, Response, empty, document, write_header}
use go_auth_refresh_template.Web.Server.{Pattern, exact, subtree, one_segment, Route}

abbrev has_slash : String → Bool
has_slash String.[] = false
has_slash (String.◌∷◌ c s) = nat_eq (code c) b'/' || has_slash s

-- A wildcard `{id}` takes one segment, which is not empty.
abbrev pub is_segment : String → Bool
is_segment s = not (s == "") && not (has_slash s)

abbrev pub matches : Pattern → String → Bool
matches (exact p) path = path == p
matches (subtree p) path = starts_with path p
matches (one_segment p) path = starts_with path p && is_segment (after_prefix path p)

-- Of two patterns that match a path, the first is the more specific one.
abbrev pub is_more_specific : Pattern → Pattern → Bool
is_more_specific (exact p) q = true
is_more_specific (one_segment p) (exact q) = false
is_more_specific (one_segment p) q = true
is_more_specific (subtree p) (subtree q) = ltb (len q) (len p)
is_more_specific (subtree p) q = false

abbrev pub prefer : Route → Option Route → Option Route
prefer r none = some r
prefer r (some s) = if is_more_specific r.pattern s.pattern then some r else some s

-- The most specific route of the method that matches the path.
abbrev pub best : List Route → String → String → Option Route
best [] method path = none
best (r ∷ rs) method path =
    let rest = best rs method path in
    if r.method == method && matches r.pattern path then prefer r rest else rest

-- A GET route serves HEAD too.
abbrev pub best_or_get : List Route → String → String → Option Route
best_or_get routes method path = elim (best routes method path) [
  | some r ↦ some r
  | none ↦ if method == "HEAD" then best routes "GET" path else none
]

-- The path is the whole of what the pattern is for, with nothing left for "all below".
abbrev is_exact : String → Option Route → Bool
is_exact path none = false
is_exact path (some r) = elim r.pattern [
  | exact p ↦ true
  | one_segment p ↦ true
  | subtree p ↦ path == p
]

pub data Choice : Type 0 where
  found : Route → Choice
  redirect : String → Choice
  method_not_allowed not_found : Choice

abbrev pub without_redirect : List Route → String → Option Route → Choice
without_redirect routes path (some r) = found r
without_redirect routes path none =
    if any (λ r. matches r.pattern path) routes then method_not_allowed else not_found

abbrev pub ends_in_slash : String → Bool
ends_in_slash String.[] = false
ends_in_slash (String.◌∷◌ c s) = nat_eq (code c) b'/' && s == "" || ends_in_slash s

-- A path without its last slash is redirected, unless a route is for the path itself.
abbrev pub choose : List Route → String → String → Choice
choose routes method path =
    let r = best_or_get routes method path in
    if not (is_exact path r)
      && not (ends_in_slash path)
      && is_exact (path ++ "/") (best_or_get routes method (path ++ "/"))
    then redirect (path ++ "/")
    else without_redirect routes path r

-- `r.SetPathValue`
abbrev pub with_path_value : Pattern → Request → Request
with_path_value (exact p) r = r
with_path_value (subtree p) r = r
with_path_value (one_segment p) r = record r { path_id = after_prefix r.path p }

-- `ServeHTTP`: the handler that runs, or `none` where the mux answers by itself, by a redirect or with
-- status 404 or 405.
abbrev pub run_choice : Request → Choice → Option (Action Response)
run_choice r (found route) = some (route.handler (with_path_value route.pattern r))
run_choice r (redirect path) = none
run_choice r method_not_allowed = none
run_choice r not_found = none

abbrev pub dispatch : List Route → Request → Option (Action Response)
dispatch routes r = run_choice r (choose routes r.method r.path)
