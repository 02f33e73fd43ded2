-- ===== src/Configs.antt =====
-- configs/setup.go, with what it uses of strconv and net.
pub mod Url
pub mod Ports
pub mod Atoi
use Prim.Native.Char.{Char, code}
use Prim.Native.String.{◌++◌}
use go_auth_refresh_template.Base.{
  ℕ, zero, suc, ◌+◌, ◌-◌, ℤ, pos, negsuc, suc_ℤ, String, Bool, true, false, Option, none, some, leb,
  nat_eq, ◌||◌, ◌==◌, text_key, if◌then◌else◌,
}
use go_auth_refresh_template.Domain.{Config, is_development}
use go_auth_refresh_template.Errors.{Error, wrap, external, errors_as, pick_op_error}
use go_auth_refresh_template.World.{Outcome, ok, err, panics}
use go_auth_refresh_template.Configs.Atoi.{atoi, itoa}

-- `const MaxPort = 65535`
abbrev pub max_port : ℕ
max_port = 65535

-- What the code asks of the outside: `godotenv.Load`, `env.UnmarshalFromEnviron`, and `net.Listen`
-- of the network "tcp", which may answer otherwise at each call.
pub record System : Type 0 where
  pub load : Option Error
  pub unmarshal : Outcome Config
  pub listen : ℕ → String → Option Error

has_colon : String → Bool
has_colon String.[] = false
has_colon (String.◌∷◌ c s) = nat_eq (code c) b':' || has_colon s

-- `net.JoinHostPort`
unfoldable pub join_host_port : String → String → String
unfolding has_colon
join_host_port host port =
    if has_colon host then "[" ++ host ++ "]:" ++ port else host ++ ":" ++ port

abbrev pub no_port : ℤ → Error
no_port start = external ("no available port found from " ++ itoa start)

-- The rounds of `for port := startPort; port <= MaxPort; port++`.
unfoldable pub rounds_from : ℤ → ℕ
rounds_from (pos n) = if leb n max_port then suc (max_port - n) else 0
rounds_from (negsuc n) = suc max_port + suc n

module _ (system : System) where
  -- The loop, with `port` and the number of calls of `net.Listen` before it.
  unfoldable pub listen_from : ℕ → String → ℤ → ℤ → ℕ → Outcome ℤ
  unfolding errors_as join_host_port
  listen_from zero host start port n = err (no_port start)
  listen_from (suc rounds) host start port n =
      elim (system.listen n (join_host_port host (itoa port))) [
        | none ↦ ok port
        | some e ↦ elim (errors_as pick_op_error e) [
          | none ↦ err (wrap ("checking port " ++ itoa port) e)
          | some _ ↦ listen_from rounds host start (suc_ℤ port) (n + 1)
        ]
      ]

  unfoldable pub listen_from_port : String → ℤ → Outcome ℤ
  unfolding listen_from rounds_from
  listen_from_port host start = listen_from (rounds_from start) host start start 0

  abbrev pub with_port : Config → Outcome ℤ → Outcome Config
  with_port config (ok port) = ok (record config { api = record (config.api) { port = itoa port } })
  with_port config (err e) = err e
  with_port config (panics s) = panics s

  abbrev pub parsed_port : Config → Outcome ℤ → Outcome Config
  parsed_port config (ok port) = with_port config (listen_from_port config.api.host port)
  parsed_port config (err e) = err e
  parsed_port config (panics s) = panics s

  -- In development the first free port is taken, from the one that is set.
  unfoldable pub choose_port : Config → Outcome Config
  unfolding is_development
  choose_port config =
      if is_development config then parsed_port config (atoi config.api.port) else ok config

  abbrev pub with_url : Outcome Config → Outcome Config
  with_url (ok config) = ok (record config {
    api = record (config.api) { url = config.api.host ++ ":" ++ config.api.port };
  })
  with_url (err e) = err e
  with_url (panics s) = panics s

  abbrev unmarshalled : Outcome Config → Outcome Config
  unmarshalled (ok config) = with_url (choose_port config)
  unmarshalled (err e) = err e
  unmarshalled (panics s) = panics s

  unfoldable pub new_config : Outcome Config
  new_config = elim system.load [ some e ↦ err e | none ↦ unmarshalled system.unmarshal ]
