-- ===== src/Runner/Feed/Disconnects.antt =====
-- One disconnect in `run_feed` of src/ws/runner.rs, and runs of brief sessions.
use exchange_apiws.Prelude.{
  ℕ, suc, ◌+◌, ◌-◌, ◌^◌, ◌≤◌, ◌<◌, true, false, List, [], ◌∷◌, ◌++◌, ◌≡◌, refl, ap, ◌∙◌, ◌⊎◌, inl,
  inr, arith, All, length, leb, Bool-cases,
}
use exchange_apiws.Runner.Config.{WsRunnerConfig}
use exchange_apiws.Runner.Feed.{
  Session, SessionOutcome, shutdown_requested, receiver_dropped, disconnected, finished,
  ws_disconnected, next_attempts, gives_up, run_feed,
}

-- A session that was disconnected before it was stable.
abbrev pub IsUnstable : Session → Type 0
IsUnstable s = (s.outcome ≡ disconnected) × (s.uptime_secs < 60)

abbrev pub IsDisconnected : Session → Type 0
IsDisconnected s = s.outcome ≡ disconnected

-- What a disconnect does to the attempt counter of a loop within its budget.
pub data Next (config : WsRunnerConfig) (a : ℕ) (s : Session) : Type 0 where
  stop :
      gives_up config a s ≡ true
      → s.uptime_secs < 60
      → a ≡ config.max_reconnect_attempts
      → next_attempts a s ≡ suc a
      → Next config a s
  retry :
      gives_up config a s ≡ false
      → s.uptime_secs < 60
      → (next_attempts a s ≡ suc a) ⊎ (config.max_reconnect_attempts ≡ 2 ^ 32 - 1)
      → next_attempts a s ≤ config.max_reconnect_attempts
      → next_attempts a s ≤ suc a
      → Next config a s
  reset : gives_up config a s ≡ false → 60 ≤ s.uptime_secs → next_attempts a s ≡ 0 → Next config a s

pub disconnect-Next :
    (config : WsRunnerConfig) (a : ℕ) (s : Session)
    → config.max_reconnect_attempts < 2 ^ 32
    → a ≤ config.max_reconnect_attempts
    → Next config a s
unfolding gives_up
disconnect-Next config a s m h = elim (Bool-cases (leb 60 s.uptime_secs)) [
  | inl stable ↦ reset (ground arith) (ground arith) (ground arith)
  | inr brief ↦ elim (Bool-cases (gives_up config a s)) [
    | inl over ↦ stop over (ground arith) (ground arith) (ground arith)
    | inr more ↦ retry more (ground arith) (ground arith) (ground arith) (ground arith)
  ]
]

-- A run of brief sessions at the end of which the loop stopped: a whole budget of them, or what was
-- left of it at the start.
pub record Spent (max a : ℕ) (sessions : List Session) (n : ℕ) : Type 0 where
  pub before : List Session
  pub bad : List Session
  pub after : List Session
  pub split : sessions ≡ before ++ (bad ++ after)
  pub unstable : All IsUnstable bad
  pub attempts : n ≡ suc max
  pub budget : (length bad ≡ suc max) ⊎ (before ≡ []) × (length bad + a ≡ suc max)

-- Another session in front of a whole run.
pub Spent-cons :
    (max a b n : ℕ) (s : Session) (sessions : List Session)
    → IsDisconnected s
    → (b ≡ 0) ⊎ (b ≡ suc a) × (s.uptime_secs < 60)
    → Spent max b sessions n
    → Spent max a (s ∷ sessions) n
Spent-cons max a b n s sessions d h r = elim r.budget [
  | inl whole ↦ in_front whole
  | inr (first, left) ↦ elim h [
    | inl zeroed ↦ in_front (omega arith)
    | inr (next, brief) ↦ record {
      before = [];
      bad = s ∷ r.bad;
      after = r.after;
      split = ap (λ l. s ∷ l) (r.split ∙ ap (λ l. l ++ (r.bad ++ r.after)) first);
      unstable = ((d, brief), r.unstable);
      attempts = r.attempts;
      budget = inr (refl, omega arith);
    }
  ]
]
  where
    in_front : length r.bad ≡ suc max → Spent max a (s ∷ sessions) n
    in_front whole = record {
      before = s ∷ r.before;
      bad = r.bad;
      after = r.after;
      split = ap (λ l. s ∷ l) r.split;
      unstable = r.unstable;
      attempts = r.attempts;
      budget = inl whole;
    }

pub outcome-cases :
    (o : SessionOutcome) → (o ≡ disconnected) ⊎ (o ≡ shutdown_requested) ⊎ (o ≡ receiver_dropped)
outcome-cases disconnected = inl refl
outcome-cases shutdown_requested = inr (inl refl)
outcome-cases receiver_dropped = inr (inr refl)

-- One session that was disconnected, and the rest of the loop.
pub run_feed-stop :
    (config : WsRunnerConfig) (a : ℕ) (s : Session) (sessions : List Session)
    → IsDisconnected s
    → gives_up config a s ≡ true
    → (run_feed config a (s ∷ sessions)).1 ≡ ws_disconnected (next_attempts a s)
unfolding run_feed
run_feed-stop config a s sessions d g = ground arith

pub run_feed-retry :
    (config : WsRunnerConfig) (a : ℕ) (s : Session) (sessions : List Session)
    → IsDisconnected s
    → gives_up config a s ≡ false
    → (run_feed config a (s ∷ sessions)).1 ≡ (run_feed config (next_attempts a s) sessions).1
unfolding run_feed
run_feed-retry config a s sessions d g = ground arith

pub run_feed-ended :
    (config : WsRunnerConfig) (a : ℕ) (s : Session) (sessions : List Session)
    → (s.outcome ≡ shutdown_requested) ⊎ (s.outcome ≡ receiver_dropped)
    → (run_feed config a (s ∷ sessions)).1 ≡ finished
unfolding run_feed
run_feed-ended config a s sessions e = ground arith
