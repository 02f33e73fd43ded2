-- ===== src/Web/Http.antt =====
-- What the handlers read of an `http.Request` and write to an `http.ResponseWriter`, and the bodies
-- that internal/web/models declares.
use go_auth_refresh_template.Base.{ℕ, ℤ, String, Bool, List, []}
use go_auth_refresh_template.Domain.{Uuid}
use go_auth_refresh_template.Errors.{Cause}
use go_auth_refresh_template.World.{Action}

-- `method` and `path` choose the handler; `path_id` is `r.PathValue("id")`, `cookies` are the names
-- and the values of the Cookie header, and `body` is the text to decode.
pub record Request : Type 0 where
  pub method : String
  pub path : String
  pub path_id : String
  pub authorization : String
  pub cookies : List (String × String)
  pub body : String

pub data SameSite : Type 0 where
  default_mode strict_mode : SameSite

-- `http.Cookie`
pub record Cookie : Type 0 where
  pub name : String
  pub value : String
  pub path : String
  pub max_age : ℤ
  pub http_only : Bool
  pub secure : Bool
  pub same_site : SameSite

-- A body: none, `null`, a JSON string, or one of the structs, by its JSON fields.
pub data Body : Type 0 where
  empty null : Body
  text login_response verify_otp_response : String → Body
  send_otp_response : Uuid → Body
  get_profile : (email username : String) → Body
  client_err : (message : String) (code : ℕ) (causes : List Cause) → Body
  document : String → Body

pub record Response : Type 0 where
  pub status : ℕ
  pub content_type : String
  pub location : String
  pub set_cookies : List Cookie
  pub body : Body

abbrev pub Handler : Type 0
Handler = Request → Action Response

-- `w.WriteHeader(code)` and no body.
abbrev pub write_header : ℕ → Response
write_header code = record {
  status = code;
  content_type = "";
  location = "";
  set_cookies = [];
  body = empty;
}

-- `HandleJSON` of handler/utils.go
abbrev pub handle_json : ℕ → Body → Response
handle_json code body = record {
  status = code;
  content_type = "application/json";
  location = "";
  set_cookies = [];
  body = body;
}

-- `HandleHTML` of handler/utils.go
abbrev pub handle_html : ℕ → String → Response
handle_html code page = record {
  status = code;
  content_type = "text/html; charset=utf-8";
  location = "";
  set_cookies = [];
  body = document page;
}
