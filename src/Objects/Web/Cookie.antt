-- ===== src/Objects/Web/Cookie.antt =====
-- `CookieManager` of internal/web/cookie/cookie.go. `GetCookie` reads no field of it.
use go_auth_refresh_template.Base.{◌/◌, pos, negsuc, String, true, ◌==◌, text_key}
use go_auth_refresh_template.Domain.{Environment, RefreshTokenOptions, production}
use go_auth_refresh_template.Web.Http.{Response, default_mode, strict_mode}
use go_auth_refresh_template.Web.Cookie.{cookie_name, add_cookie}

pub record CookieManager : Type 0 where
  pub environment_options : Environment
  pub refresh_token_options : RefreshTokenOptions

abbrev pub new_cookie_manager : Environment → RefreshTokenOptions → CookieManager
new_cookie_manager environment_options refresh_token_options = record {
  environment_options = environment_options;
  refresh_token_options = refresh_token_options;
}

module _ (c : CookieManager) where
  unfoldable pub set_cookie : String → Response → Response
  set_cookie value = add_cookie (record {
    name = cookie_name;
    value = value;
    path = "/";
    max_age = pos (c.refresh_token_options.duration / 1000000000);
    http_only = true;
    secure = c.environment_options == production;
    same_site = default_mode;
  })

  unfoldable pub delete_cookie : Response → Response
  delete_cookie = add_cookie (record {
    name = cookie_name;
    value = "";
    path = "/";
    max_age = negsuc 0;
    http_only = true;
    secure = c.environment_options == production;
    same_site = strict_mode;
  })
