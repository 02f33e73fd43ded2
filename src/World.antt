-- ===== src/World.antt =====
-- What the program does not implement, as the parameter `Env`, and the monad of its operations:
-- the state, Go's error results and panics, and the calls of the outside.
pub mod Invariants
pub mod Laws
use go_auth_refresh_template.Base.{ℕ, ◌+◌, String, Bool, Option, none, some, List}
use go_auth_refresh_template.Domain.{Uuid, Time}
use go_auth_refresh_template.Errors.{Error, wrap}
use go_auth_refresh_template.Database.{Database, Reply, done, refused}

-- How a Go function ends: with a value, with a non-nil error, or by a panic.
pub data Outcome {ℓ} (A : Type ℓ) : Type ℓ where
  ok : A → Outcome A
  err : Error → Outcome A
  panics : String → Outcome A

-- `resend.SendEmailRequest`
pub record SendEmailRequest : Type 0 where
  pub from : String
  pub to : List String
  pub subject : String
  pub html : String

-- `jwt.RegisteredClaims`, the fields that the program sets or reads.
pub record RegisteredClaims : Type 0 where
  pub subject : String
  pub id : String
  pub expires_at : Time
  pub issued_at : Time

-- The method of a token: one of `*jwt.SigningMethodHMAC`, or another, by its name.
pub data SigningMethod : Type 0 where
  hmac other : String → SigningMethod

-- `jwt.Token` as the parser returns it; `claims` is `none` where the type assertion would fail.
pub record JwtToken : Type 0 where
  pub claims : Option RegisteredClaims
  pub valid : Bool

-- The outside. A function of a draw (the first ℕ) may answer otherwise at each call.
pub record Env : Type 0 where
  -- github.com/google/uuid
  pub uuid_new : ℕ → Uuid
  pub uuid_parse : String → Option Uuid
  pub uuid_string : Uuid → String
  -- time.Now, and the clock of the database server
  pub now : ℕ → Time
  pub db_now : ℕ → Time
  -- a failure of the driver or of the server that is not a constraint's
  pub db_fault : ℕ → Option Error
  -- crypto/rand; the second argument of `rand_int` is the bound
  pub rand_int : ℕ → ℕ → Outcome ℕ
  pub rand_bytes : ℕ → ℕ → Outcome (List ℕ)
  -- golang.org/x/crypto/bcrypt; `bcrypt_compare` is `err == nil`
  pub bcrypt_generate : ℕ → String → Outcome String
  pub bcrypt_compare : String → String → Bool
  -- the bytes of HMAC-SHA256, by the key and the message
  pub hmac_sha256 : String → String → List ℕ
  -- base64.RawURLEncoding.EncodeToString
  pub base64_raw_url : List ℕ → String
  -- the parsed and executed template of templates/send-otp-code.html, and the mail service
  pub otp_template : String → Outcome String
  pub send_email : ℕ → String → SendEmailRequest → Option Error
  -- github.com/golang-jwt/jwt/v5; `jwt_sign` takes the key
  pub jwt_numeric_date : Time → Time
  pub jwt_sign : String → RegisteredClaims → Outcome String
  pub jwt_parse : Time → String → (SigningMethod → Outcome String) → Outcome JwtToken

-- The state: the committed tables or, in a transaction, its view of them; the mails sent; the
-- number of draws made so far; the value of NOW() in a transaction.
pub record World : Type 0 where
  pub db : Database
  pub outbox : List SendEmailRequest
  pub draws : ℕ
  pub tx_now : Option Time

abbrev pub Action : Type 0 → Type 0
Action A = World → Outcome A × World

abbrev pub pure : {A : Type 0} → A → Action A
pure a w = (ok a, w)

abbrev pub raise : {A : Type 0} → Error → Action A
raise e w = (err e, w)

abbrev pub panic : {A : Type 0} → String → Action A
panic text w = (panics text, w)

-- `if err != nil { return …, err }` after each call.
infixl 5 ◌>>=◌ ◌>>◌
abbrev pub ◌>>=◌ : {A B : Type 0} → Action A → (A → Action B) → Action B
◌>>=◌ m f w =
    let (r, w') = m w in elim r [ ok a ↦ f a w' | err e ↦ (err e, w') | panics s ↦ (panics s, w') ]

abbrev pub ◌>>◌ : {A B : Type 0} → Action A → Action B → Action B
m >> k = m >>= λ _. k

-- `fmt.Errorf("text: %w", err)` on a failed call.
abbrev pub wrap_outcome : {A : Type 0} → String → Outcome A → Outcome A
wrap_outcome text (ok a) = ok a
wrap_outcome text (err e) = err (wrap text e)
wrap_outcome text (panics s) = panics s

abbrev pub wrap_error : {A : Type 0} → String → Action A → Action A
wrap_error text m w = let (r, w') = m w in (wrap_outcome text r, w')

-- A call that gives the outcome `r`.
abbrev pub from_outcome : {A : Type 0} → Outcome A → Action A
from_outcome r w = (r, w)

abbrev pub next_draw : World → World
next_draw w = record w { draws = w.draws + 1 }

-- A call of the outside that answers `f` of this draw, and one that can fail.
abbrev pub draw : {A : Type 0} → (ℕ → A) → Action A
draw f w = (ok (f w.draws), next_draw w)

abbrev pub try_draw : {A : Type 0} → (ℕ → Outcome A) → Action A
try_draw f w = (f w.draws, next_draw w)

abbrev pub settle : {A : Type 0} → Reply A → World → Outcome A × World
settle (done a db) w = (ok a, record w { db = db })
settle (refused e) w = (err e, w)

-- NOW(): the start of the transaction, or of the statement where there is none.
abbrev pub sql_now : Env → World → Time
sql_now env w = elim w.tx_now [ none ↦ env.db_now w.draws | some t ↦ t ]

-- One statement: it fails and changes nothing, or it answers as `statement` says.
abbrev pub query : {A : Type 0} → Env → (Time → Database → Reply A) → Action A
query env statement w = elim (env.db_fault w.draws) [
  | some e ↦ (err e, next_draw w)
  | none ↦ settle (statement (sql_now env w) w.db) (next_draw w)
]
