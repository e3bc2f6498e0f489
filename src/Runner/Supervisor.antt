-- ===== src/Runner/Supervisor.antt =====
-- `run_feed_supervised` of src/ws/runner.rs: the loop around `run_feed` that asks for a new endpoint
-- when the attempts are used up. The sessions of each cycle, the state of the shutdown flag and what
-- the refresh closure returns are the input.
pub mod Cycles
pub mod Rounds
use Prim.Native.String.{String}
use exchange_apiws.Prelude.{
  ℕ, ◌+◌, ◌-◌, ◌^◌, Bool, true, false, List, [], ◌∷◌, ◌++◌, map, ltb, ◌==◌, if◌then◌else◌,
}
use exchange_apiws.Runner.Config
use exchange_apiws.Runner.Config.{
  RunnerEvent, token_refresh, refresh_exhausted, WsRunnerConfig, emit, add_u32,
}
use exchange_apiws.Runner.Feed

pub record WsFeedEndpoint : Type 0 where
  pub url : String
  pub subscriptions : List String

pub record SupervisedConfig : Type 0 where
  pub runner : WsRunnerConfig
  pub max_refresh_cycles : ℕ  -- u32
  pub refresh_delay_secs : ℕ  -- u64

abbrev pub default : SupervisedConfig
default = record {
  runner = record Config.default { max_reconnect_attempts = 3 };
  max_refresh_cycles = 2 ^ 32 - 1;
  refresh_delay_secs = 5;
}

unfoldable pub from_runner : WsRunnerConfig → SupervisedConfig
from_runner runner =
    let attempts = runner.max_reconnect_attempts in
    record default {
      runner = record runner {
        max_reconnect_attempts =
            if attempts == Config.default.max_reconnect_attempts then 3 else attempts;
      };
    }

-- How the `select!` before a refresh ends: the delay has passed, or the flag has changed to the
-- value given.
pub data RefreshWait : Type 0 where
  elapsed : RefreshWait
  changed : Bool → RefreshWait

pub data Refresh (E : Type 0) : Type 0 where
  refreshed : WsFeedEndpoint → Refresh E
  failed : E → Refresh E

-- One turn of the loop: the sessions of its `run_feed`, the shutdown flag after them, the wait, and
-- the answer of the closure.
pub record Cycle (E : Type 0) : Type 0 where
  pub sessions : List Feed.Session
  pub shutdown : Bool
  pub waited : RefreshWait
  pub refresh : Refresh E

pub data Effect : Type 0 where
  called_refresh : Effect
  fed : WsFeedEndpoint → List Feed.Effect → Effect
  emitted : RunnerEvent → Effect

pub data Result (E : Type 0) : Type 0 where
  pending : Result E
  finished : Result E
  ws_disconnected : ℕ → Result E
  refresh_failed : E → Result E

abbrev pub is_shutdown : RefreshWait → Bool
is_shutdown elapsed = false
is_shutdown (changed value) = value

module _ {E : Type 0} where
  abbrev pub endpoint_or : WsFeedEndpoint → Refresh E → WsFeedEndpoint
  endpoint_or endpoint (refreshed fresh) = fresh
  endpoint_or endpoint (failed e) = endpoint

  abbrev pub after_refresh :
      List Effect → Refresh E → List Effect × Result E → List Effect × Result E
  after_refresh head (refreshed fresh) (effects, result) = (head ++ effects, result)
  after_refresh head (failed e) rest = (head, refresh_failed e)

  -- The loop, with `cycle` refreshes made and `endpoint` current.
  unfoldable pub supervise :
      SupervisedConfig → ℕ → WsFeedEndpoint → List (Cycle E) → List Effect × Result E
  supervise config cycle endpoint [] = ([], pending)
  supervise config cycle endpoint (c ∷ cycles) =
      let (effects, result) = Feed.run_feed config.runner 0 c.sessions in
      let next = add_u32 cycle 1 in
      let feed = fed endpoint effects in
      let rest = supervise config next (endpoint_or endpoint c.refresh) cycles in
      elim result [
        | Feed.pending ↦ (feed ∷ [], pending)
        | Feed.finished ↦ (feed ∷ [], finished)
        | Feed.ws_disconnected attempts ↦
            if ltb config.max_refresh_cycles next
            then (
              feed ∷ map emitted (emit config.runner (refresh_exhausted next)),
              ws_disconnected attempts,
            )
            else if c.shutdown
            then (feed ∷ [], finished)
            else if is_shutdown c.waited
            then (feed ∷ [], finished)
            else after_refresh
                (feed
                  ∷ (map emitted (emit config.runner (token_refresh next)) ++ called_refresh ∷ []))
                c.refresh rest
      ]

  unfoldable pub run_feed_supervised :
      SupervisedConfig → Refresh E → List (Cycle E) → List Effect × Result E
  unfolding supervise
  run_feed_supervised config (failed e) cycles = (called_refresh ∷ [], refresh_failed e)
  run_feed_supervised config (refreshed endpoint) cycles =
      let (effects, result) = supervise config 0 endpoint cycles in
      (called_refresh ∷ effects, result)
