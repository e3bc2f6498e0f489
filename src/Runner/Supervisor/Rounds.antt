-- ===== src/Runner/Supervisor/Rounds.antt =====
-- What `run_feed_supervised` of src/ws/runner.rs has done, in order, when it gives up.
use exchange_apiws.Prelude.{
  ℕ, zero, suc, ◌+◌, ◌^◌, ◌<◌, List, [], ◌∷◌, ◌≡◌, refl, ap, ◌∙◌, arith, length, take, ◌⊎◌, inl,
  inr,
}
use exchange_apiws.Runner.Feed
use exchange_apiws.Runner.Supervisor.{
  WsFeedEndpoint, SupervisedConfig, Refresh, refreshed, failed, Cycle, Effect, called_refresh, fed,
  emitted, ws_disconnected, supervise, run_feed_supervised,
}
use exchange_apiws.Runner.Supervisor.Cycles.{offered}

-- The calls of the closure and the feeds among the effects, in order.
abbrev pub actions : List Effect → List Effect
actions [] = []
actions (called_refresh ∷ effects) = called_refresh ∷ actions effects
actions (fed endpoint sessions ∷ effects) = fed endpoint sessions ∷ actions effects
actions (emitted event ∷ effects) = actions effects

FeedResult-cases :
    (r : Feed.FeedResult)
    → (r ≡ Feed.pending) ⊎ ((r ≡ Feed.finished) ⊎ ((m : ℕ) × (r ≡ Feed.ws_disconnected m)))
FeedResult-cases Feed.pending = inl refl
FeedResult-cases Feed.finished = inr (inl refl)
FeedResult-cases (Feed.ws_disconnected m) = inr (inr (m, refl))

module _ {E : Type 0} where
  -- For each of the endpoints, a call of the closure and then a feed with the endpoint, over the
  -- sessions of the next cycle.
  abbrev pub rounds : SupervisedConfig → List WsFeedEndpoint → List (Cycle E) → List Effect
  rounds config [] cycles = []
  rounds config (endpoint ∷ endpoints) [] = []
  rounds config (endpoint ∷ endpoints) (c ∷ cycles) =
      called_refresh
      ∷ fed endpoint (Feed.run_feed config.runner 0 c.sessions).0
      ∷ rounds config endpoints cycles

  -- The feeds of the first cycles returned `WsDisconnected`, and the one after them, with `n`
  -- attempts.
  abbrev pub Disconnected : SupervisedConfig → ℕ → ℕ → List (Cycle E) → Type 0
  Disconnected config before n [] = ⊥
  Disconnected config zero n (c ∷ cycles) =
      (Feed.run_feed config.runner 0 c.sessions).1 ≡ Feed.ws_disconnected n
  Disconnected config (suc before) n (c ∷ cycles) =
      ((m : ℕ) × ((Feed.run_feed config.runner 0 c.sessions).1 ≡ Feed.ws_disconnected m))
      × Disconnected config before n cycles

  Refresh-cases :
      (r : Refresh E)
      → ((fresh : WsFeedEndpoint) × (r ≡ refreshed fresh)) ⊎ ((x : E) × (r ≡ failed x))
  Refresh-cases (refreshed fresh) = inl (fresh, refl)
  Refresh-cases (failed x) = inr (x, refl)

  -- A turn after which the supervisor gives up, when it has no refresh left.
  supervise-last :
      (config : SupervisedConfig) (cycle n : ℕ) (endpoint : WsFeedEndpoint) (c : Cycle E)
      (cycles : List (Cycle E))
      → config.max_refresh_cycles + 1 < 2 ^ 32
      → cycle ≡ config.max_refresh_cycles
      → (supervise config cycle endpoint (c ∷ cycles)).1 ≡ ws_disconnected n
      → (actions (supervise config cycle endpoint (c ∷ cycles)).0
          ≡ fed endpoint (Feed.run_feed config.runner 0 c.sessions).0 ∷ [])
        × ((Feed.run_feed config.runner 0 c.sessions).1 ≡ Feed.ws_disconnected n)
  unfolding supervise
  supervise-last config cycle n endpoint c cycles fits h e = ground arith

  -- A turn after which the supervisor gives up later.
  supervise-more :
      (config : SupervisedConfig) (cycle n m : ℕ) (endpoint fresh : WsFeedEndpoint) (c : Cycle E)
      (cycles : List (Cycle E))
      → config.max_refresh_cycles + 1 < 2 ^ 32
      → cycle < config.max_refresh_cycles
      → (supervise config cycle endpoint (c ∷ cycles)).1 ≡ ws_disconnected n
      → (Feed.run_feed config.runner 0 c.sessions).1 ≡ Feed.ws_disconnected m
      → c.refresh ≡ refreshed fresh
      → (actions (supervise config cycle endpoint (c ∷ cycles)).0
          ≡ fed endpoint (Feed.run_feed config.runner 0 c.sessions).0
            ∷ called_refresh
            ∷ actions (supervise config (cycle + 1) fresh cycles).0)
        × ((supervise config (cycle + 1) fresh cycles).1 ≡ ws_disconnected n)
  unfolding supervise
  supervise-more config cycle n m endpoint fresh c cycles fits h e r f = ground arith

  supervise-gives_up :
      (config : SupervisedConfig) (cycle left n : ℕ) (endpoint : WsFeedEndpoint)
      (cycles : List (Cycle E))
      → config.max_refresh_cycles + 1 < 2 ^ 32
      → cycle + left ≡ config.max_refresh_cycles
      → (supervise config cycle endpoint cycles).1 ≡ ws_disconnected n
      → (called_refresh ∷ actions (supervise config cycle endpoint cycles).0
          ≡ rounds config (endpoint ∷ take left (offered cycles)) cycles)
        × (length (take left (offered cycles)) ≡ left)
        × Disconnected config left n cycles
  unfolding supervise
  supervise-gives_up config cycle left n endpoint [] fits h e = cc
  supervise-gives_up config cycle zero n endpoint (c ∷ cycles) fits h e =
      let (acts, over) = supervise-last config cycle n endpoint c cycles fits (omega arith) e in
      (ap (λ l. called_refresh ∷ l) acts, refl, over)
  supervise-gives_up config cycle (suc left) n endpoint (c ∷ cycles) fits h e =
      elim (FeedResult-cases (Feed.run_feed config.runner 0 c.sessions).1) [
        | inl r ↦ absurd (ground arith)
        | inr (inl r) ↦ absurd (ground arith)
        | inr (inr (m, r)) ↦ elim (Refresh-cases c.refresh) [
          | inr (x, f) ↦ absurd (ground arith)
          | inl (fresh, f) ↦
              let (acts, later) =
                supervise-more config cycle n m endpoint fresh c cycles fits (omega arith) e r f in
              let (order, size, over) =
                supervise-gives_up config (cycle + 1) left n fresh cycles fits (omega arith)
                  later in
              (
                ap (λ l. called_refresh ∷ l)
                      (acts
                        ∙ ap (λ l. fed endpoint (Feed.run_feed config.runner 0 c.sessions).0 ∷ l)
                            order)
                    ∙ rw f refl,
                rw f (omega (arith, size)),
                ((m, r), over),
              )
        ]
      ]

  -- Under a limit below 2 ^ 32 - 1, a supervisor that returns `WsDisconnected` has called the
  -- closure at the start and started a feed with the endpoint it got, and has done the same again
  -- `max_refresh_cycles` times, each call after the feed before it and before the feed with its own
  -- endpoint, and no more of either. Each of these feeds returned `WsDisconnected`, and the last of
  -- them with the number of attempts that the supervisor returns.
  pub run_feed_supervised-gives_up :
      (config : SupervisedConfig) (bootstrap : Refresh E) (cycles : List (Cycle E)) (n : ℕ)
      → config.max_refresh_cycles + 1 < 2 ^ 32
      → (run_feed_supervised config bootstrap cycles).1 ≡ ws_disconnected n
      → (endpoint : WsFeedEndpoint) × (bootstrap ≡ refreshed endpoint)
        × (actions (run_feed_supervised config bootstrap cycles).0
            ≡ rounds config (endpoint ∷ take config.max_refresh_cycles (offered cycles)) cycles)
        × (length (take config.max_refresh_cycles (offered cycles)) ≡ config.max_refresh_cycles)
        × Disconnected config config.max_refresh_cycles n cycles
  unfolding run_feed_supervised
  run_feed_supervised-gives_up config (failed e) cycles n fits g = cc
  run_feed_supervised-gives_up config (refreshed endpoint) cycles n fits g =
      let (order, size, over) =
        supervise-gives_up config 0 config.max_refresh_cycles n endpoint cycles fits (omega arith)
          g in
      (endpoint, refl, order, size, over)
