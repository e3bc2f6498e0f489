-- ===== src/Runner/Feed.antt =====
-- `run_feed` of src/ws/runner.rs: the reconnect loop. What each session returns, and how long it
-- took, are the input; the delays slept, the sessions started and the events are the output.
pub mod Backoff
pub mod Disconnects
pub mod Budget
use exchange_apiws.Prelude.{
  ℕ, Bool, true, false, List, [], ◌∷◌, ◌++◌, map, not, ◌&&◌, ltb, leb, if◌then◌else◌,
}
use exchange_apiws.Runner.Config.{
  RunnerEvent, session_ended, reconnects_exhausted, WsRunnerConfig, emit, add_u32,
  stable_session_secs, is_cascade_start, backoff_delay,
}

pub data SessionOutcome : Type 0 where
  shutdown_requested receiver_dropped disconnected : SessionOutcome

-- What a call of `single_session` returned, and `session_start.elapsed()` after it.
pub record Session : Type 0 where
  pub outcome : SessionOutcome
  pub uptime_secs : ℕ

pub data Effect : Type 0 where
  slept : ℕ → Effect
  started : ℕ → Effect
  emitted : RunnerEvent → Effect

-- `pending`: the sessions given were all used, and the loop goes on.
pub data FeedResult : Type 0 where
  pending finished : FeedResult
  ws_disconnected : ℕ → FeedResult

-- The head of an iteration: the backoff, and the start of a session.
abbrev pub reconnect : WsRunnerConfig → ℕ → List Effect
reconnect config attempts =
    if ltb 0 attempts
    then slept (backoff_delay config attempts) ∷ started attempts ∷ []
    else started attempts ∷ []

unfoldable pub is_stable : Session → Bool
is_stable s = leb stable_session_secs s.uptime_secs

-- The attempt counter after a session that was disconnected.
unfoldable pub next_attempts : ℕ → Session → ℕ
unfolding is_stable
next_attempts attempts s = if is_stable s then 0 else add_u32 attempts 1

unfoldable pub gives_up : WsRunnerConfig → ℕ → Session → Bool
unfolding next_attempts is_stable
gives_up config attempts s =
    not (is_stable s) && ltb config.max_reconnect_attempts (next_attempts attempts s)

unfoldable pub run_feed : WsRunnerConfig → ℕ → List Session → List Effect × FeedResult
run_feed config attempts [] = ([], pending)
run_feed config attempts (s ∷ sessions) =
    let next = next_attempts attempts s in
    let (effects, result) = run_feed config next sessions in
    let ended = session_ended attempts s.uptime_secs (is_cascade_start attempts s.uptime_secs) in
    let head = reconnect config attempts in
    elim s.outcome [
      | shutdown_requested ↦ (head, finished)
      | receiver_dropped ↦ (head, finished)
      | disconnected ↦
          if gives_up config attempts s
          then (
            head ++ map emitted (emit config ended ++ emit config (reconnects_exhausted next)),
            ws_disconnected next,
          )
          else (head ++ map emitted (emit config ended) ++ effects, result)
    ]
