-- ===== src/Tests/Configs.antt =====
-- The loading of the settings where the port that is set is in use.
use Prim.Native.String.{◌++◌, count}
use go_auth_refresh_template.Base.{
  ℕ, suc, ◌%◌, ◌<◌, pos, suc_ℤ, ◌≤ℤ◌, String, none, some, ◌≡◌, ◌⊎◌, refl, arith, ◌==◌, text_key,
  if◌then◌else◌, Option,
}
use go_auth_refresh_template.Domain.{Config}
use go_auth_refresh_template.Errors.{Error, wrap, op_error, errors_as, pick_op_error}
use go_auth_refresh_template.World.{ok, err}
use go_auth_refresh_template.Secure.Format.{decimal, sprintf_06d}
use go_auth_refresh_template.Configs.{
  System, max_port, no_port, listen_from_port, new_config, choose_port,
}
use go_auth_refresh_template.Configs.Atoi.{atoi, itoa, read_decimal}
use go_auth_refresh_template.Configs.Ports.{
  IsLast, port_at, answer, AllBusy, listen_from_port_lem, listen_from_port_finds,
}
use go_auth_refresh_template.Configs.Url.{ChoosesPort, new_config_lem}
use go_auth_refresh_template.Service.Otp.{random_code}
use go_auth_refresh_template.Service.Otp.Code.{random_code_six_digits}
use go_auth_refresh_template.Tests.Fixture.{env, config, start}

-- Two ports are in use, 8080 and 8081.
abbrev in_use : String → Option Error
in_use address =
    if address == "localhost:8080"
    then some (op_error "listen")
    else if address == "localhost:8081"
    then some (op_error "listen")
    else none

abbrev pub system : System
system = record {
  load = none;
  unmarshal = ok (record config { environment = "development" });
  listen = λ n address. in_use address;
}

unfoldable pub run_listen : Unit {0}
unfolding new_config choose_port listen_from_port atoi itoa decimal errors_as
run_listen = tt

abbrev loaded : Config
loaded = record config {
  environment = "development";
  api = record (config.api) { port = "8082"; url = "localhost:8082" };
}

loads : new_config system ≡ ok loaded
unfolding run_listen
loads = refl

new_config_lem_example :
    (first : Config) × (system.load ≡ none)
    × (system.unmarshal ≡ ok first)
    × (loaded ≡ record first { api = record (first.api) { port = "8082"; url = "localhost:8082" } })
    × ("localhost:8082" ≡ first.api.host ++ ":" ++ "8082")
    × ChoosesPort system first "8082"
new_config_lem_example = new_config_lem system {c = loaded} loads

listen_from_port_lem_example :
    (k : ℕ) × AllBusy system "localhost" k (pos 8080) 0
    × (((listen_from_port system "localhost" (pos 8080) ≡ ok (port_at (pos 8080) k))
          × (answer system "localhost" k (pos 8080) 0 ≡ none)
          × (pos 8080 ≤ℤ port_at (pos 8080) k)
          × (port_at (pos 8080) k ≤ℤ pos max_port))
        ⊎ ((listen_from_port system "localhost" (pos 8080) ≡ err (no_port (pos 8080)))
            × IsLast k (pos 8080))
        ⊎ ((e : Error) × (listen_from_port system "localhost" (pos 8080)
              ≡ err (wrap ("checking port " ++ itoa (port_at (pos 8080) k)) e))
            × (answer system "localhost" k (pos 8080) 0 ≡ some e)
            × (errors_as pick_op_error e ≡ none)
            × (pos 8080 ≤ℤ port_at (pos 8080) k)
            × (port_at (pos 8080) k ≤ℤ pos max_port)))
listen_from_port_lem_example = listen_from_port_lem system "localhost" (pos 8080)

listen_from_port_finds_example : listen_from_port system "localhost" (pos 8080) ≡ ok (pos 8082)
unfolding run_listen
listen_from_port_finds_example =
    listen_from_port_finds system "localhost" (pos 8080) 2
      ((op_error "listen", refl, "listen", refl), ((op_error "listen", refl, "listen", refl), tt))
      refl (omega arith)

below_bound : (d bound k : ℕ) → env.rand_int d (suc bound) ≡ ok k → k < suc bound
below_bound d bound k h = let e : 4207 % suc bound ≡ k = ground arith in rw (← e) (omega arith)

random_code_six_digits_example :
    (suc_ℤ (pos 4207) ≤ℤ pos 1000000)
    × (count (sprintf_06d 4207) ≡ 6)
    × (read_decimal (sprintf_06d 4207) ≡ some 4207)
unfolding random_code
random_code_six_digits_example =
    random_code_six_digits env config (pos 1000000) start {n = 4207}
      {w' = record start { draws = 1 }} below_bound (omega arith) refl
