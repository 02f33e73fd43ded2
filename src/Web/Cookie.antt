-- ===== src/Web/Cookie.antt =====
-- internal/web/cookie/cookie.go
use go_auth_refresh_template.Base.{
  ◌/◌, pos, negsuc, String, true, Option, none, some, List, [], ◌∷◌, ◌++◌, ◌==◌, text_key,
  if◌then◌else◌,
}
use go_auth_refresh_template.Domain.{Config, is_production}
use go_auth_refresh_template.Web.Http.{Request, Response, Cookie, default_mode, strict_mode}

abbrev pub cookie_name : String
cookie_name = "auth_cookie"

-- `http.SetCookie(w, cookie)` adds a header.
abbrev pub add_cookie : Cookie → Response → Response
add_cookie cookie r = record r { set_cookies = r.set_cookies ++ cookie ∷ [] }

-- `int(Duration.Seconds())`, the whole seconds of a duration in nanoseconds.
unfoldable pub set_cookie : Config → String → Response → Response
unfolding is_production
set_cookie config value = add_cookie (record {
  name = cookie_name;
  value = value;
  path = "/";
  max_age = pos (config.refresh_token.duration / 1000000000);
  http_only = true;
  secure = is_production config;
  same_site = default_mode;
})

-- A `MaxAge` of -1 makes the browser drop the cookie.
unfoldable pub delete_cookie : Config → Response → Response
unfolding is_production
delete_cookie config = add_cookie (record {
  name = cookie_name;
  value = "";
  path = "/";
  max_age = negsuc 0;
  http_only = true;
  secure = is_production config;
  same_site = strict_mode;
})

-- The value of the first cookie of the name.
abbrev pub lookup_cookie : String → List (String × String) → Option String
lookup_cookie name [] = none
lookup_cookie name ((n, v) ∷ rest) = if n == name then some v else lookup_cookie name rest

-- `none` is `http.ErrNoCookie`.
unfoldable pub get_cookie : Request → Option String
get_cookie r = lookup_cookie cookie_name r.cookies
