-- ===== src/Configs/Url.antt =====
-- `NewConfig` of configs/setup.go: which settings it returns.
use Prim.Native.String.{◌++◌}
use go_auth_refresh_template.Base.{
  ℕ, ℤ, pos, ◌≤ℤ◌, String, true, false, none, ◌≡◌, ◌⊎◌, inl, inr, arith, Bool-cases, Option-cases,
}
use go_auth_refresh_template.Domain.{Config, is_development}
use go_auth_refresh_template.World.{ok}
use go_auth_refresh_template.World.Laws.{outcome-cases}
use go_auth_refresh_template.Configs.{System, max_port, new_config, choose_port, parsed_port}
use go_auth_refresh_template.Configs.Atoi.{atoi, itoa}
use go_auth_refresh_template.Configs.Atoi.Laws.{atoi-itoa, atoi-ge}
use go_auth_refresh_template.Configs.Ports.{port_at, answer, AllBusy, listen_from_port_lem}

module _ (system : System) where
  -- In development the port is the first free one from the port that is set.
  abbrev pub IsFirstFree : String → String → String → Type 0
  IsFirstFree host set port =
      (start : ℤ) × (k : ℕ) × (atoi set ≡ ok start)
      × (port ≡ itoa (port_at start k))
      × (atoi port ≡ ok (port_at start k))
      × (start ≤ℤ port_at start k)
      × (port_at start k ≤ℤ pos max_port)
      × AllBusy system host k start 0
      × (answer system host k start 0 ≡ none)

  parsed_port-ok :
      (config : Config) {c : Config}
      → parsed_port system config (atoi config.api.port) ≡ ok c
      → IsFirstFree config.api.host config.api.port c.api.port
        × (c ≡ record config { api = record (config.api) { port = c.api.port } })
  parsed_port-ok config {c} h = elim (outcome-cases (atoi config.api.port)) [
    | inl (start, e) ↦
        let (k, busy, ends) = listen_from_port_lem system config.api.host start in
        elim ends [
          | inl (found, free, lo, hi) ↦
              let low = atoi-ge config.api.port {z = start} e in
              let is : c
                  ≡ record config { api = record (config.api) { port = itoa (port_at start k) } } =
                ground arith in
              let port_is : c.api.port ≡ itoa (port_at start k) = ground arith in
              let read = atoi-itoa (port_at start k) (omega (arith, low, lo)) (omega (arith, hi)) in
              ((start, k, e, port_is, rw port_is read, lo, hi, busy, free), ground arith)
          | inr (inl (none_free, all)) ↦ ground arith
          | inr (inr (x, broken, fails, other, lo, hi)) ↦ ground arith
        ]
    | inr (inl (x, e)) ↦ ground arith
    | inr (inr (x, e)) ↦ ground arith
  ]

  -- How the port of the returned settings was chosen.
  abbrev pub ChoosesPort : Config → String → Type 0
  ChoosesPort loaded port =
      ((is_development loaded ≡ false) × (port ≡ loaded.api.port))
      ⊎ ((is_development loaded ≡ true) × IsFirstFree loaded.api.host loaded.api.port port)

  choose_port-ok :
      (config : Config) {c : Config}
      → choose_port system config ≡ ok c
      → ChoosesPort config c.api.port
        × (c ≡ record config { api = record (config.api) { port = c.api.port } })
  unfolding choose_port
  choose_port-ok config {c} h = elim (Bool-cases (is_development config)) [
    | inl e ↦
        let (first, same) = parsed_port-ok config {c = c} (rw e at h) in (inr (e, first), same)
    | inr e ↦ let same : config ≡ c = ground arith in (inl (e, ground arith), ground arith)
  ]

  -- Settings that are returned were loaded and decoded, with no change but to the port and the URL.
  -- The URL is the host and the port. Outside development the port is the one that was set; in
  -- development it is the first from that one on, up to 65535, that is free.
  pub new_config_lem :
      {c : Config}
      → new_config system ≡ ok c
      → (loaded : Config) × (system.load ≡ none)
        × (system.unmarshal ≡ ok loaded)
        × (c ≡ record loaded { api = record (loaded.api) { port = c.api.port; url = c.api.url } })
        × (c.api.url ≡ loaded.api.host ++ ":" ++ c.api.port)
        × ChoosesPort loaded c.api.port
  unfolding new_config
  new_config_lem {c} h = elim (Option-cases system.load) [
    | inr (x, l) ↦ ground arith
    | inl l ↦ elim (outcome-cases system.unmarshal) [
      | inl (loaded, u) ↦ elim (outcome-cases (choose_port system loaded)) [
        | inl (chosen, e) ↦
            let (chooses, same) = choose_port-ok loaded {c = chosen} e in
            let is : c ≡ record chosen {
              api = record (chosen.api) { url = chosen.api.host ++ ":" ++ chosen.api.port };
            } =
              ground arith in
            let port_is : c.api.port ≡ chosen.api.port = ground arith in
            (loaded, l, u, ground arith, ground arith, rw port_is chooses)
        | inr (inl (x, e)) ↦ ground arith
        | inr (inr (x, e)) ↦ ground arith
      ]
      | inr (inl (x, u)) ↦ ground arith
      | inr (inr (x, u)) ↦ ground arith
    ]
  ]
