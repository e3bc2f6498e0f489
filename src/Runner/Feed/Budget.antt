-- ===== src/Runner/Feed/Budget.antt =====
-- The retry budget of `run_feed` in src/ws/runner.rs: when the loop gives up, and when it does not.
use exchange_apiws.Prelude.{
  ℕ, suc, ◌+◌, ◌-◌, ◌^◌, ◌≤◌, ◌<◌, true, false, List, [], ◌∷◌, ◌++◌, ◌≡◌, ◌≢◌, refl, sym, ap, ◌∙◌,
  ◌⊎◌, inl, inr, arith, All, length,
}
use exchange_apiws.Runner.Config.{reconnects_exhausted, WsRunnerConfig}
use exchange_apiws.Runner.Feed.{
  Session, Effect, emitted, FeedResult, ws_disconnected, next_attempts, gives_up, run_feed,
}
use exchange_apiws.Runner.Feed.Disconnects.{
  IsUnstable, IsDisconnected, stop, retry, reset, disconnect-Next, Spent, Spent-cons, outcome-cases,
  run_feed-stop, run_feed-retry, run_feed-ended,
}

module _ (config : WsRunnerConfig) (fits : config.max_reconnect_attempts + 1 < 2 ^ 32) where
  abbrev limit : ℕ
  limit = config.max_reconnect_attempts

  run_feed-Spent :
      (a n : ℕ) (sessions : List Session)
      → a ≤ limit
      → (run_feed config a sessions).1 ≡ ws_disconnected n
      → Spent limit a sessions n
  unfolding run_feed
  run_feed-Spent a n [] h e = cc
  run_feed-Spent a n (s ∷ sessions) h e = elim (outcome-cases s.outcome) [
    | inr ended ↦ let done = run_feed-ended config a s sessions ended in cc
    | inl d ↦ elim (disconnect-Next config a s (omega arith) h) [
      | stop g brief last next ↦
          let over = run_feed-stop config a s sessions d g in
          let same : n ≡ next_attempts a s = cc in
          record {
            before = [];
            bad = s ∷ [];
            after = sessions;
            split = refl;
            unstable = ((d, brief), tt);
            attempts = omega arith;
            budget = inr (refl, omega arith);
          }
      | retry g brief next within _ ↦
          Spent-cons limit a (next_attempts a s) n s sessions d
            (inr (elim next [ inl one ↦ one | inr top ↦ absurd (omega arith) ], brief))
            (run_feed-Spent (next_attempts a s) n sessions within
              (sym (run_feed-retry config a s sessions d g) ∙ e))
      | reset g long zeroed ↦ Spent-cons limit a (next_attempts a s) n s sessions d (inl zeroed) (
          run_feed-Spent (next_attempts a s) n sessions (omega arith)
            (sym (run_feed-retry config a s sessions d g) ∙ e))
    ]
  ]

  -- Within the budget, a disconnected session ends the loop or leaves it within its budget.
  run_feed-disconnected :
      (a : ℕ) (s : Session) (sessions : List Session)
      → a ≤ limit
      → IsDisconnected s
      → ((run_feed config a (s ∷ sessions)).1 ≡ ws_disconnected (limit + 1))
        ⊎ (next_attempts a s ≤ limit)
          × ((run_feed config a (s ∷ sessions)).1
              ≡ (run_feed config (next_attempts a s) sessions).1)
          × (s.uptime_secs < 60 → next_attempts a s ≡ suc a)
  run_feed-disconnected a s sessions h d = elim (disconnect-Next config a s (omega arith) h) [
    | stop g brief last next ↦
        let over = run_feed-stop config a s sessions d g in
        let same : next_attempts a s ≡ limit + 1 = omega arith in
        inl (over ∙ ap ws_disconnected same)
    | retry g brief next within _ ↦ inr (
      within,
      run_feed-retry config a s sessions d g,
      λ u. elim next [ inl one ↦ one | inr top ↦ absurd (omega arith) ],
    )
    | reset g long zeroed ↦
        inr (omega arith, run_feed-retry config a s sessions d g, λ u. absurd (omega arith))
  ]

  run_feed-brief :
      (a : ℕ) (bad after : List Session)
      → a ≤ limit
      → All IsUnstable bad
      → limit < length bad + a
      → (run_feed config a (bad ++ after)).1 ≡ ws_disconnected (limit + 1)
  run_feed-brief a [] after h u l = absurd (omega arith)
  run_feed-brief a (s ∷ bad) after h u l = elim (run_feed-disconnected a s (bad ++ after) h u.0.0) [
    | inl over ↦ over
    | inr (within, same, next) ↦
        let one = next u.0.1 in
        same ∙ run_feed-brief (next_attempts a s) bad after within u.1 (omega arith)
  ]

  run_feed-runs :
      (a : ℕ) (before bad after : List Session)
      → a ≤ limit
      → All IsDisconnected before
      → All IsUnstable bad
      → length bad ≡ limit + 1
      → (run_feed config a (before ++ (bad ++ after))).1 ≡ ws_disconnected (limit + 1)
  run_feed-runs a [] bad after h d u l = run_feed-brief a bad after h u (omega arith)
  run_feed-runs a (s ∷ before) bad after h d u l =
      elim (run_feed-disconnected a s (before ++ (bad ++ after)) h d.0) [
        | inl over ↦ over
        | inr (within, same, next) ↦
            same ∙ run_feed-runs (next_attempts a s) before bad after within d.1 u l
      ]

-- If the loop starts with no attempts made, under a limit below 2 ^ 32 - 1, and returns
-- `WsDisconnected` with `n` attempts, then `n` is the limit plus one, and the sessions hold an
-- unbroken run of that many that were disconnected within less than a minute.
pub run_feed-spent :
    (config : WsRunnerConfig) (n : ℕ) (sessions : List Session)
    → config.max_reconnect_attempts + 1 < 2 ^ 32
    → (run_feed config 0 sessions).1 ≡ ws_disconnected n
    → (n ≡ config.max_reconnect_attempts + 1)
      × ((before : List Session) × (bad : List Session) × (after : List Session) × (sessions
            ≡ before ++ (bad ++ after))
          × All IsUnstable bad
          × (length bad ≡ config.max_reconnect_attempts + 1))
run_feed-spent config n sessions fits e =
    let r = run_feed-Spent config fits 0 n sessions (omega arith) e in
    (
      omega (arith, r.attempts),
      (
        r.before,
        r.bad,
        r.after,
        r.split,
        r.unstable,
        elim r.budget [ inl whole ↦ omega arith | inr (_, left) ↦ omega arith ],
      ),
    )

-- Under a limit below 2 ^ 32 - 1, a loop whose sessions are all disconnected and hold, after the
-- first few, an unbroken run of the limit plus one that lasted less than a minute, returns
-- `WsDisconnected` with that number of attempts, whatever the sessions would be from then on.
pub run_feed-exhausts :
    (config : WsRunnerConfig) (before bad after : List Session)
    → config.max_reconnect_attempts + 1 < 2 ^ 32
    → All IsDisconnected before
    → All IsUnstable bad
    → length bad ≡ config.max_reconnect_attempts + 1
    → (run_feed config 0 (before ++ (bad ++ after))).1
      ≡ ws_disconnected (config.max_reconnect_attempts + 1)
run_feed-exhausts config before bad after fits d u l =
    run_feed-runs config fits 0 before bad after (omega arith) d u l

-- Under the limit 2 ^ 32 - 1, the largest there is, the loop never gives up: the counter wraps
-- around before it can pass the limit.
pub run_feed-unlimited :
    (config : WsRunnerConfig) (a n : ℕ) (sessions : List Session)
    → config.max_reconnect_attempts ≡ 2 ^ 32 - 1
    → (run_feed config a sessions).1 ≢ ws_disconnected n
unfolding run_feed gives_up
run_feed-unlimited config a n [] top = λ e. cc
run_feed-unlimited config a n (s ∷ sessions) top =
    let more : gives_up config a s ≡ false = ground arith in
    ground (arith, run_feed-unlimited config (next_attempts a s) n sessions top)

-- The numbers with which a list of effects reports that the attempts are used up.
abbrev pub exhaustions : List Effect → List ℕ
exhaustions [] = []
exhaustions (emitted (reconnects_exhausted n) ∷ effects) = n ∷ exhaustions effects
exhaustions (_ ∷ effects) = exhaustions effects

-- The attempts that a result reports as used up.
abbrev pub exhausted_by : FeedResult → List ℕ
exhausted_by (ws_disconnected n) = n ∷ []
exhausted_by _ = []

-- With a listener, the loop emits `ReconnectsExhausted` exactly when it returns `WsDisconnected`,
-- once, and with the same number of attempts.
pub run_feed-reports :
    (config : WsRunnerConfig) (a : ℕ) (sessions : List Session)
    → config.on_event ≡ true
    → exhaustions (run_feed config a sessions).0 ≡ exhausted_by (run_feed config a sessions).1
unfolding run_feed
run_feed-reports config a [] l = refl
run_feed-reports config a (s ∷ sessions) l =
    ground (arith, run_feed-reports config (next_attempts a s) sessions)
