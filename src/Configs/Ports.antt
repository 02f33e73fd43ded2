-- ===== src/Configs/Ports.antt =====
-- `listenFromPort` of configs/setup.go: which port it finds.
use Prim.Native.String.{◌++◌}
use go_auth_refresh_template.Base.{
  ℕ, zero, suc, ◌+◌, ◌<◌, ℤ, pos, negsuc, suc_ℤ, ◌≤ℤ◌, ◌<ℤ◌, String, Option, none, some, ◌≡◌, ◌⊎◌,
  inl, inr, refl, ◌∙◌, arith, Option-cases,
}
use go_auth_refresh_template.Errors.{Error, wrap, errors_as, pick_op_error}
use go_auth_refresh_template.World.{Outcome, ok, err}
use go_auth_refresh_template.Configs.{
  System, max_port, no_port, rounds_from, join_host_port, listen_from, listen_from_port,
}
use go_auth_refresh_template.Configs.Atoi.{itoa}

-- The port after `k` rounds.
abbrev pub port_at : ℤ → ℕ → ℤ
port_at port zero = port
port_at port (suc k) = port_at (suc_ℤ port) k

port_at_bounds :
    (port : ℤ) (k : ℕ)
    → k < rounds_from port
    → (port ≤ℤ port_at port k) × (port_at port k ≤ℤ pos max_port)
unfolding rounds_from
port_at_bounds (pos n) zero h = ground arith
port_at_bounds (negsuc n) zero h = ground arith
port_at_bounds (pos n) (suc k) h = ground (arith, port_at_bounds (pos (n + 1)) k)
port_at_bounds (negsuc zero) (suc k) h = ground (arith, port_at_bounds (pos 0) k)
port_at_bounds (negsuc (suc n)) (suc k) h = ground (arith, port_at_bounds (negsuc n) k)

port_at-in_range : (port : ℤ) (k : ℕ) → port_at port k ≤ℤ pos max_port → k < rounds_from port
unfolding rounds_from
port_at-in_range (pos n) zero h = ground arith
port_at-in_range (negsuc n) zero h = ground arith
port_at-in_range (pos n) (suc k) h = ground (arith, port_at-in_range (pos (n + 1)) k)
port_at-in_range (negsuc zero) (suc k) h = ground (arith, port_at-in_range (pos 0) k)
port_at-in_range (negsuc (suc n)) (suc k) h = ground (arith, port_at-in_range (negsuc n) k)

-- The `k` ports from `port` on are no higher than 65535, and the next one is.
abbrev pub IsLast : ℕ → ℤ → Type 0
IsLast zero port = pos max_port <ℤ port
IsLast (suc k) port = (port ≤ℤ pos max_port) × IsLast k (suc_ℤ port)

rounds-IsLast : (k : ℕ) (port : ℤ) → k ≡ rounds_from port → IsLast k port
unfolding rounds_from
rounds-IsLast zero (pos n) h = ground arith
rounds-IsLast zero (negsuc n) h = ground arith
rounds-IsLast (suc k) (pos n) h = (ground arith, rounds-IsLast k (pos (n + 1)) (ground arith))
rounds-IsLast (suc k) (negsuc zero) h = (ground arith, rounds-IsLast k (pos 0) (ground arith))
rounds-IsLast (suc k) (negsuc (suc n)) h = (ground arith, rounds-IsLast k (negsuc n) (ground arith))

module _ (system : System) (host : String) where
  -- The error of the listening in round `k`, from `port` on, if any.
  abbrev pub answer : ℕ → ℤ → ℕ → Option Error
  answer zero port n = system.listen n (join_host_port host (itoa port))
  answer (suc k) port n = answer k (suc_ℤ port) (n + 1)

  -- A round that found its port in use: the listening failed with a `*net.OpError`.
  abbrev pub IsBusy : Option Error → Type 0
  IsBusy o = (e : Error) × (o ≡ some e) × (text : String) × (errors_as pick_op_error e ≡ some text)

  abbrev pub AllBusy : ℕ → ℤ → ℕ → Type 0
  AllBusy zero port n = Unit
  AllBusy (suc k) port n = IsBusy (answer zero port n) × AllBusy k (suc_ℤ port) (n + 1)

  -- How the loop ends after `k` rounds that found their port in use.
  abbrev Ends : ℕ → ℤ → ℤ → ℕ → Outcome ℤ → ℕ → Type 0
  Ends rounds start port n r k =
      ((r ≡ ok (port_at port k)) × (k < rounds) × (answer k port n ≡ none))
      ⊎ ((r ≡ err (no_port start)) × (k ≡ rounds))
      ⊎ ((e : Error) × (r ≡ err (wrap ("checking port " ++ itoa (port_at port k)) e))
          × (k < rounds)
          × (answer k port n ≡ some e)
          × (errors_as pick_op_error e ≡ none))

  Ends-suc :
      (rounds : ℕ) (start port : ℤ) (n : ℕ) {r : Outcome ℤ} (r' : Outcome ℤ) (k : ℕ)
      → r' ≡ r
      → Ends rounds start (suc_ℤ port) (n + 1) r k
      → Ends (suc rounds) start port n r' (suc k)
  Ends-suc rounds start port n r' k same (inl (e, lt, free)) = inl (same ∙ e, omega arith, free)
  Ends-suc rounds start port n r' k same (inr (inl (e, all))) = inr (inl (same ∙ e, omega arith))
  Ends-suc rounds start port n r' k same (inr (inr (x, e, lt, fails, other))) =
      inr (inr (x, same ∙ e, omega arith, fails, other))

  listen_from_lem :
      (rounds : ℕ) (start port : ℤ) (n : ℕ)
      → (k : ℕ) × AllBusy k port n
        × Ends rounds start port n (listen_from system rounds host start port n) k
  unfolding listen_from
  listen_from_lem zero start port n = (0, tt, inr (inl (refl, refl)))
  listen_from_lem (suc rounds) start port n = elim (Option-cases (answer zero port n)) [
    | inl free ↦ (0, tt, inl (ground arith, omega arith, free))
    | inr (e, fails) ↦ elim (Option-cases (errors_as pick_op_error e)) [
      | inl other ↦ (0, tt, inr (inr (e, ground arith, omega arith, fails, other)))
      | inr (text, busy) ↦
          let (k, all_busy, ends) = listen_from_lem rounds start (suc_ℤ port) (n + 1) in
          (
            suc k,
            ((e, fails, text, busy), all_busy),
            Ends-suc rounds start port n _ k (ground arith) ends,
          )
    ]
  ]

  -- The search from the port `start` ends after some number `k` of ports in use, one after the other
  -- from `start` on, and with one of three results: the next port, which is free and lies between
  -- `start` and 65535; an error that there is none, where the next port is the first one above 65535 and
  -- the `k` before it are not above; or the error of the next port, which lies between `start` and 65535,
  -- where that error is no `*net.OpError`.
  pub listen_from_port_lem :
      (start : ℤ)
      → (k : ℕ) × AllBusy k start 0
        × (((listen_from_port system host start ≡ ok (port_at start k))
              × (answer k start 0 ≡ none)
              × (start ≤ℤ port_at start k)
              × (port_at start k ≤ℤ pos max_port))
            ⊎ ((listen_from_port system host start ≡ err (no_port start)) × IsLast k start)
            ⊎ ((e : Error) × (listen_from_port system host start
                  ≡ err (wrap ("checking port " ++ itoa (port_at start k)) e))
                × (answer k start 0 ≡ some e)
                × (errors_as pick_op_error e ≡ none)
                × (start ≤ℤ port_at start k)
                × (port_at start k ≤ℤ pos max_port)))
  unfolding listen_from_port
  listen_from_port_lem start =
      let (k, all_busy, ends) = listen_from_lem (rounds_from start) start start 0 in
      (
        k,
        all_busy,
        elim ends [
          | inl (e, lt, free) ↦ let (lo, hi) = port_at_bounds start k lt in inl (e, free, lo, hi)
          | inr (inl (e, all)) ↦ inr (inl (e, rounds-IsLast k start all))
          | inr (inr (x, e, lt, fails, other)) ↦
              let (lo, hi) = port_at_bounds start k lt in inr (inr (x, e, fails, other, lo, hi))
        ],
      )

  listen_from_finds :
      (rounds : ℕ) (start port : ℤ) (k n : ℕ)
      → k < rounds
      → AllBusy k port n
      → answer k port n ≡ none
      → listen_from system rounds host start port n ≡ ok (port_at port k)
  unfolding listen_from
  listen_from_finds zero start port k n lt busy free = absurd (omega arith)
  listen_from_finds (suc rounds) start port zero n lt busy free = ground arith
  listen_from_finds (suc rounds) start port (suc k) n lt ((e, fails, text, op), busy) free =
      ground (arith, listen_from_finds rounds start (suc_ℤ port) k (n + 1) (omega arith) busy free)

  -- No free port is passed over: where the ports before the `k`th from `start` on are in use, and
  -- that one is free and no higher than 65535, it is found.
  pub listen_from_port_finds :
      (start : ℤ) (k : ℕ)
      → AllBusy k start 0
      → answer k start 0 ≡ none
      → port_at start k ≤ℤ pos max_port
      → listen_from_port system host start ≡ ok (port_at start k)
  unfolding listen_from_port
  listen_from_port_finds start k busy free small =
      listen_from_finds (rounds_from start) start start k 0 (port_at-in_range start k small) busy
        free
