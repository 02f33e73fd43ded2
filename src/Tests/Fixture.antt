-- ===== src/Tests/Fixture.antt =====
-- A concrete outside and small tables. Nothing here stands for code of the repository: the functions
-- are simple ones that meet the hypotheses of the theorems.
use Prim.Native.Char.{code}
use Prim.Native.String.{count}
use text.Mathlib.TextLemmas.{length-nil, length-cons}
use go_auth_refresh_template.Base.{
  ℕ, zero, suc, ◌+◌, ◌%◌, String, true, Option, none, some, List, [], ◌∷◌, ◌≡◌, ap, pos, ◌==◌,
  text_key, ◌∙◌,
}
use go_auth_refresh_template.Domain.{User, RefreshToken, Config, Uuid}
use go_auth_refresh_template.Database.{Database}
use go_auth_refresh_template.World.{Env, World, Outcome, ok, err, panics, JwtToken, hmac}

-- An id as text: "u" and as many zeros as the number says.
abbrev pub zeros : ℕ → String
zeros zero = ""
zeros (suc n) = String.◌∷◌ "0" (zeros n)

abbrev pub id_text : Uuid → String
id_text n = String.◌∷◌ "u" (zeros n)

abbrev pub parse_id : String → Option Uuid
parse_id String.[] = none
parse_id (String.◌∷◌ c s) = some (count s)

count-zeros : (n : ℕ) → count (zeros n) ≡ n
count-zeros zero = length-nil
count-zeros (suc n) = length-cons "0" (zeros n) ∙ ap suc (count-zeros n)

pub parse-id_text : (n : ℕ) → parse_id (id_text n) ≡ some n
parse-id_text n = ap some (count-zeros n)

abbrev codes : String → List ℕ
codes String.[] = []
codes (String.◌∷◌ c s) = code c ∷ codes s

abbrev parse_token : String → Outcome String → Outcome JwtToken
parse_token text (ok key) = ok (record {
  claims = some (record { subject = text; id = ""; expires_at = 9000; issued_at = 0 });
  valid = true;
})
parse_token text (err e) = err e
parse_token text (panics s) = panics s

abbrev pub env : Env
env = record {
  uuid_new = λ n. 20 + n;
  uuid_parse = parse_id;
  uuid_string = id_text;
  now = λ n. 1000 + n;
  db_now = λ n. 1000 + n;
  db_fault = λ n. none;
  rand_int = λ n bound. ok (4207 % bound);
  rand_bytes = λ n k. ok (n ∷ []);
  bcrypt_generate = λ n password. ok (String.◌∷◌ "$" password);
  bcrypt_compare = λ saved password. saved == String.◌∷◌ "$" password;
  hmac_sha256 = λ key message. codes message;
  base64_raw_url = λ bytes. "token";
  otp_template = λ code. ok code;
  send_email = λ n key request. none;
  jwt_numeric_date = λ t. t;
  jwt_sign = λ key claims. ok claims.subject;
  jwt_parse = λ now text key. parse_token text (key (hmac "HS256"));
}

abbrev pub config : Config
config = record {
  environment = "production";
  api = record {
    url = "";
    host = "localhost";
    port = "8080";
    read_header_timeout = 5;
    read_timeout = 10;
    write_timeout = 10;
    idle_timeout = 60;
  };
  postgres = record {
    host = "localhost";
    port = "5432";
    name = "db";
    user = "admin";
    password = "";
  };
  jwt = record { private_key = "key"; duration = 900 };
  refresh_token = record { duration = 5000 };
  reset_token = record { secret = "reset"; duration = 600 };
  otp = record { max_value = pos 1000000; secret = "otp"; duration = 120; max_attempts = pos 3 };
  resend = record { api_key = ""; email = "from@x" };
}

abbrev pub ann : User
ann = record { id = 1; email = "ann@x"; password = "$secret"; username = "ann" }

abbrev pub bob : User
bob = record { id = 2; email = "bob@x"; password = "$hunter"; username = "bob" }

abbrev pub token_of_ann : RefreshToken
token_of_ann = record { id = 7; user_id = 1; created_at = 10; expires_at = 5000 }

abbrev pub db : Database
db = record {
  users = ann ∷ bob ∷ [];
  refresh_tokens = token_of_ann ∷ [];
  password_reset_tokens = [];
  otp = [];
}

abbrev pub start : World
start = record { db = db; outbox = []; draws = 0; tx_now = none }
