-- ===== src/Runner/Supervisor/Cycles.antt =====
-- The refresh budget of `run_feed_supervised` in src/ws/runner.rs, and the endpoints that it uses.
use exchange_apiws.Prelude.{ℕ, ◌+◌, ◌^◌, ◌≤◌, ◌<◌, List, [], ◌∷◌, ◌≡◌, refl, arith, length, take}
use exchange_apiws.Runner.Config.{add_u32}
use exchange_apiws.Runner.Supervisor.{
  WsFeedEndpoint, SupervisedConfig, Refresh, refreshed, failed, Cycle, Effect, called_refresh, fed,
  emitted, endpoint_or, supervise, run_feed_supervised,
}

-- The number of calls of the refresh closure.
abbrev pub refreshes : List Effect → ℕ
refreshes [] = 0
refreshes (called_refresh ∷ effects) = 1 + refreshes effects
refreshes (fed endpoint sessions ∷ effects) = refreshes effects
refreshes (emitted event ∷ effects) = refreshes effects

-- The endpoints that `run_feed` was started with, in order.
abbrev pub endpoints : List Effect → List WsFeedEndpoint
endpoints [] = []
endpoints (called_refresh ∷ effects) = endpoints effects
endpoints (fed endpoint sessions ∷ effects) = endpoint ∷ endpoints effects
endpoints (emitted event ∷ effects) = endpoints effects

module _ {E : Type 0} where
  -- The endpoints that the closure hands out, up to its first failure.
  abbrev pub offered : List (Cycle E) → List WsFeedEndpoint
  offered [] = []
  offered (c ∷ cycles) =
      let rest = offered cycles in
      elim c.refresh [ refreshed endpoint ↦ endpoint ∷ rest | failed e ↦ [] ]

  -- The refreshes made from a cycle on stay within the budget.
  supervise-count :
      (config : SupervisedConfig) (cycle : ℕ) (endpoint : WsFeedEndpoint) (cycles : List (Cycle E))
      → config.max_refresh_cycles + 1 < 2 ^ 32
      → cycle ≤ config.max_refresh_cycles
      → refreshes (supervise config cycle endpoint cycles).0 + cycle ≤ config.max_refresh_cycles
  unfolding supervise
  supervise-count config cycle endpoint [] fits h = omega arith
  supervise-count config cycle endpoint (c ∷ cycles) fits h =
      ground
        (arith, supervise-count config (cycle + 1) (endpoint_or endpoint c.refresh) cycles fits)

  supervise-endpoints :
      (config : SupervisedConfig) (cycle : ℕ) (endpoint : WsFeedEndpoint) (cycles : List (Cycle E))
      → endpoints (supervise config cycle endpoint cycles).0
        ≡ take
            (length (endpoints (supervise config cycle endpoint cycles).0))
            (endpoint ∷ offered cycles)
  unfolding supervise
  supervise-endpoints config cycle endpoint [] = refl
  supervise-endpoints config cycle endpoint (c ∷ cycles) =
      ground (
        arith,
        supervise-endpoints config (add_u32 cycle 1) (endpoint_or endpoint c.refresh) cycles,
      )

  -- Under a limit below 2 ^ 32 - 1 the supervisor calls the refresh closure once at the start and
  -- then at most `max_refresh_cycles` times.
  pub run_feed_supervised-budget :
      (config : SupervisedConfig) (bootstrap : Refresh E) (cycles : List (Cycle E))
      → config.max_refresh_cycles + 1 < 2 ^ 32
      → refreshes (run_feed_supervised config bootstrap cycles).0 ≤ config.max_refresh_cycles + 1
  unfolding run_feed_supervised
  run_feed_supervised-budget config (failed e) cycles fits = omega arith
  run_feed_supervised-budget config (refreshed endpoint) cycles fits =
      omega (arith, supervise-count config 0 endpoint cycles fits (omega arith))

  -- The feeds of a supervised run are started with the endpoint of the first call of the closure
  -- and then, in order, with those of the calls that follow: none is skipped or used twice.
  pub run_feed_supervised-endpoints :
      (config : SupervisedConfig) (endpoint : WsFeedEndpoint) (cycles : List (Cycle E))
      → endpoints (run_feed_supervised config (refreshed endpoint) cycles).0
        ≡ take
            (length (endpoints (run_feed_supervised config (refreshed endpoint) cycles).0))
            (endpoint ∷ offered cycles)
  unfolding run_feed_supervised
  run_feed_supervised-endpoints config endpoint cycles =
      supervise-endpoints config 0 endpoint cycles
