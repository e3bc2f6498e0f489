-- ===== src/Runner/Config.antt =====
-- `RunnerEvent` and `WsRunnerConfig` of src/ws/runner.rs. A listener is modelled by the events that
-- it is handed, so the configuration says only whether there is one.
use exchange_apiws.Prelude.{
  ℕ, ◌+◌, ◌*◌, ◌^◌, ◌%◌, ◌-◌, Bool, false, List, [], ◌∷◌, min, ltb, ◌==◌, ◌&&◌, if◌then◌else◌,
}

pub data RunnerEvent : Type 0 where
  -- the attempt, the uptime in seconds, and whether a cascade starts
  session_ended : ℕ → ℕ → Bool → RunnerEvent
  reconnects_exhausted : ℕ → RunnerEvent
  token_refresh : ℕ → RunnerEvent
  refresh_exhausted : ℕ → RunnerEvent

pub record WsRunnerConfig : Type 0 where
  pub ping_interval_secs : ℕ  -- u64
  pub reconnect_delay_secs : ℕ  -- u64
  pub max_reconnect_delay_secs : ℕ  -- u64
  pub max_reconnect_attempts : ℕ  -- u32
  pub connect_timeout_secs : ℕ  -- u64
  pub idle_timeout_secs : ℕ  -- u64
  pub on_event : Bool

abbrev pub default : WsRunnerConfig
default = record {
  ping_interval_secs = 20;
  reconnect_delay_secs = 5;
  max_reconnect_delay_secs = 30;
  max_reconnect_attempts = 5;
  connect_timeout_secs = 10;
  idle_timeout_secs = 60;
  on_event = false;
}

unfoldable pub from_ping_interval : ℕ → WsRunnerConfig
from_ping_interval secs = record default { ping_interval_secs = secs }

abbrev pub emit : WsRunnerConfig → RunnerEvent → List RunnerEvent
emit config event = if config.on_event then event ∷ [] else []

-- `u32` and `u64` arithmetic as a release build computes it.
abbrev pub add_u32 : ℕ → ℕ → ℕ
add_u32 a b = (a + b) % 2 ^ 32

abbrev pub saturating_mul_u64 : ℕ → ℕ → ℕ
saturating_mul_u64 a b = min (a * b) (2 ^ 64 - 1)

abbrev pub stable_session_secs : ℕ
stable_session_secs = 60

abbrev pub cascade_detect_secs : ℕ
cascade_detect_secs = 5

unfoldable pub is_cascade_start : ℕ → ℕ → Bool
is_cascade_start attempt uptime_secs = attempt == 0 && ltb uptime_secs cascade_detect_secs

-- The delay before reconnect attempt `attempts`, which is at least 1.
unfoldable pub backoff_delay : WsRunnerConfig → ℕ → ℕ
backoff_delay config attempts =
    let exp = min (attempts - 1) 63 in
    min (saturating_mul_u64 config.reconnect_delay_secs (2 ^ min exp 4))
      config.max_reconnect_delay_secs
