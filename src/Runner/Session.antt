-- ===== src/Runner/Session.antt =====
-- `single_session` of src/ws/runner.rs: one connection, from the handshake to its end. The branch
-- that each turn of the loop takes, with what it reads, is the input; what the session sends and
-- delivers is the output. Whether the n-th write and the n-th delivery succeed are parameters.
pub mod Order
use exchange_apiws.Prelude.{
  ℕ, ◌+◌, ◌-◌, Bool, true, false, ◌&&◌, Option, none, some, List, [], ◌∷◌, ◌++◌, ◌⊎◌, inl, inr, ltb,
  leb, if◌then◌else◌,
}
use exchange_apiws.Prelude.Text.{Text}
use exchange_apiws.Runner.Config.{WsRunnerConfig}
use exchange_apiws.Runner.Feed.{SessionOutcome, shutdown_requested, receiver_dropped, disconnected}
use exchange_apiws.Runner.Guard.{secs}

-- The methods of the trait `ExchangeConnector` that a session calls.
pub record ExchangeConnector (M : Type 0) : Type 0 where
  pub auth_message : Option Text
  pub ping_message : Option Text
  pub response_for : Text → Option Text
  pub parse_message : Text → Text ⊎ List M

pub data Message : Type 0 where
  text : Text → Message
  pong : Text → Message
  close : Message

-- `guard.check()` is recorded where it is called; a write is recorded whether or not it succeeds.
pub data Effect (M : Type 0) : Type 0 where
  checked : Effect M
  sent : Message → Effect M
  delivered : M → Effect M

-- What `read.next()` returns.
pub data Frame : Type 0 where
  text_frame ping_frame failed : Text → Frame
  close_frame binary other_frame ended : Frame

-- A branch of the `select!`; the readings of the clock are in nanoseconds.
pub data Event : Type 0 where
  shutdown_changed : Bool → Event
  frame : ℕ → Frame → Event
  ping_tick : ℕ → Event

pub data Connect : Type 0 where
  connected refused timed_out : Connect

pub record State : Type 0 where
  pub writes : ℕ
  pub deliveries : ℕ
  pub last_frame_at : ℕ

pub data Next : Type 0 where
  stay : State → Next
  stop : SessionOutcome → Next

module _ {M : Type 0} where
  -- One step after another, if the first does not end the session.
  unfoldable pub and_then :
      List (Effect M) × Next → (State → List (Effect M) × Next) → List (Effect M) × Next
  and_then (effects, stop outcome) f = (effects, stop outcome)
  and_then (effects, stay s) f = let (more, next) = f s in (effects ++ more, next)

module _ {M : Type 0} (connector : ExchangeConnector M) (config : WsRunnerConfig)
    (writable : ℕ → Bool) (accepted : ℕ → Bool) where
  -- `guard.check()`, then a write whose failure ends the session.
  unfoldable pub send_text : Text → State → List (Effect M) × Next
  send_text message s = (
    checked ∷ sent (text message) ∷ [],
    if writable s.writes then stay (record s { writes = s.writes + 1 }) else stop disconnected,
  )

  unfoldable pub send_optional : Option Text → State → List (Effect M) × Next
  unfolding send_text
  send_optional none s = ([], stay s)
  send_optional (some message) s = send_text message s

  unfoldable pub subscribe : List Text → State → List (Effect M) × Next
  unfolding and_then send_text
  subscribe [] s = ([], stay s)
  subscribe (sub ∷ subscriptions) s = and_then (send_text sub s) (subscribe subscriptions)

  -- `for msg in msgs { tx.send(msg) }`.
  unfoldable pub deliver : List M → State → List (Effect M) × Next
  deliver [] s = ([], stay s)
  deliver (m ∷ ms) s =
      let (effects, next) = deliver ms (record s { deliveries = s.deliveries + 1 }) in
      if accepted s.deliveries then (delivered m ∷ effects, next) else ([], stop receiver_dropped)

  unfoldable pub on_frame : Frame → State → List (Effect M) × Next
  unfolding and_then send_optional deliver
  on_frame (text_frame raw) s =
      and_then (send_optional (connector.response_for raw) s) (λ s.
        elim (connector.parse_message raw) [ inl e ↦ ([], stay s) | inr msgs ↦ deliver msgs s ])
  on_frame (ping_frame payload) s = (
    sent (pong payload) ∷ [],
    if writable s.writes then stay (record s { writes = s.writes + 1 }) else stop disconnected,
  )
  on_frame close_frame s = ([], stop disconnected)
  on_frame binary s = ([], stay s)
  on_frame other_frame s = ([], stay s)
  on_frame (failed e) s = ([], stop disconnected)
  on_frame ended s = ([], stop disconnected)

  abbrev pub is_some : Frame → Bool
  is_some ended = false
  is_some _ = true

  unfoldable pub is_idle : ℕ → State → Bool
  is_idle now s =
      ltb 0 config.idle_timeout_secs && leb (secs config.idle_timeout_secs) (now - s.last_frame_at)

  unfoldable pub on_event : Event → State → List (Effect M) × Next
  unfolding on_frame is_idle
  on_event (shutdown_changed value) s =
      if value then (checked ∷ sent close ∷ [], stop shutdown_requested) else ([], stay s)
  on_event (frame now f) s = on_frame f (if is_some f then record s { last_frame_at = now } else s)
  on_event (ping_tick now) s =
      if is_idle now s then ([], stop disconnected) else send_optional connector.ping_message s

  unfoldable pub receive : List Event → State → List (Effect M) × Next
  unfolding and_then on_event
  receive [] s = ([], stay s)
  receive (event ∷ events) s = and_then (on_event event s) (receive events)

  -- `now` is the clock when the subscriptions are sent.
  unfoldable pub single_session : Connect → List Text → ℕ → List Event → List (Effect M) × Next
  unfolding and_then send_optional subscribe receive
  single_session refused subscriptions now events = ([], stop disconnected)
  single_session timed_out subscriptions now events = ([], stop disconnected)
  single_session connected subscriptions now events =
      let start : State = record { writes = 0; deliveries = 0; last_frame_at = now } in
      and_then (send_optional connector.auth_message start) (λ s.
        and_then (subscribe subscriptions s)
          (λ s. receive events (record s { last_frame_at = now })))
