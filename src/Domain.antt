-- ===== src/Domain.antt =====
-- The domain models of internal/domain and the settings of configs/environment.go.
use go_auth_refresh_template.Base.{ℕ, ℤ, String, Bool, ◌==◌, text_key}

-- `uuid.UUID`: its 128 bits as a number. `uuid.Nil` is 0.
abbrev pub Uuid : Type 0
Uuid = ℕ

abbrev pub uuid_nil : Uuid
uuid_nil = 0

-- `time.Time` and `time.Duration`: nanoseconds since Go's zero time; durations are not negative.
abbrev pub Time : Type 0
Time = ℕ

abbrev pub zero_time : Time
zero_time = 0

abbrev pub Duration : Type 0
Duration = ℕ

pub record User : Type 0 where
  pub id : Uuid
  pub email : String
  pub password : String
  pub username : String

pub record RefreshToken : Type 0 where
  pub id : Uuid
  pub user_id : Uuid
  pub created_at : Time
  pub expires_at : Time

pub record ResetToken : Type 0 where
  pub id : Uuid
  pub user_id : Uuid
  pub token_hash : String
  pub expires_at : Time
  pub used_at : Time
  pub created_at : Time

pub record Otp : Type 0 where
  pub id : Uuid
  pub code : String
  pub identifier : String
  pub attempts : ℤ
  pub expires_at : Time
  pub created_at : Time

-- `configs.Environment`
abbrev pub Environment : Type 0
Environment = String

abbrev pub development : Environment
development = "development"

abbrev pub test : Environment
test = "test"

abbrev pub staging : Environment
staging = "staging"

abbrev pub production : Environment
production = "production"

pub record ApiOptions : Type 0 where
  pub url : String
  pub host : String
  pub port : String
  pub read_header_timeout : Duration
  pub read_timeout : Duration
  pub write_timeout : Duration
  pub idle_timeout : Duration

pub record PostgresOptions : Type 0 where
  pub host : String
  pub port : String
  pub name : String
  pub user : String
  pub password : String

pub record JwtOptions : Type 0 where
  pub private_key : String
  pub duration : Duration

pub record RefreshTokenOptions : Type 0 where
  pub duration : Duration

pub record ResetTokenOptions : Type 0 where
  pub secret : String
  pub duration : Duration

pub record OtpOptions : Type 0 where
  pub max_value : ℤ
  pub secret : String
  pub duration : Duration
  pub max_attempts : ℤ

pub record ResendOptions : Type 0 where
  pub api_key : String
  pub email : String

-- `configs.Config`
pub record Config : Type 0 where
  pub environment : Environment
  pub api : ApiOptions
  pub postgres : PostgresOptions
  pub jwt : JwtOptions
  pub refresh_token : RefreshTokenOptions
  pub reset_token : ResetTokenOptions
  pub otp : OtpOptions
  pub resend : ResendOptions

unfoldable pub is_development : Config → Bool
is_development c = c.environment == development

unfoldable pub is_testing : Config → Bool
is_testing c = c.environment == test

unfoldable pub is_staging : Config → Bool
is_staging c = c.environment == staging

unfoldable pub is_production : Config → Bool
is_production c = c.environment == production
