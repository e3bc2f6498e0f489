-- ===== src/Runner/Session/Order.antt =====
-- What a session of src/ws/runner.rs sends and delivers, and in which order.
use exchange_apiws.Prelude.{
  ℕ, ◌+◌, Bool, true, false, ◌&&◌, Option, none, some, List, [], ◌∷◌, ◌++◌, ◌≡◌, refl, sym, ap, ◌∙◌,
  ◌⊎◌, inl, inr, append_assoc, append-nil, Bool-cases, if◌then◌else◌,
}
use exchange_apiws.Prelude.Text.{Text}
use exchange_apiws.Runner.Config.{WsRunnerConfig}
use exchange_apiws.Runner.Session.{
  ExchangeConnector, text, pong, close, Effect, checked, sent, delivered, Frame, text_frame,
  ping_frame, failed, close_frame, binary, other_frame, ended, Event, shutdown_changed, frame,
  ping_tick, Connect, connected, refused, timed_out, State, Next, stay, stop, send_text,
  send_optional, and_then, subscribe, deliver, on_frame, is_some, on_event, receive, single_session,
  is_idle,
}

module _ {M : Type 0} where
  -- Each write but a pong comes right after a check of the guard; the Boolean says whether one was
  -- made just before the list.
  abbrev pub guarded : Bool → List (Effect M) → Bool
  guarded before [] = true
  guarded before (checked ∷ effects) = guarded true effects
  guarded before (delivered m ∷ effects) = guarded false effects
  guarded before (sent (pong payload) ∷ effects) = guarded false effects
  guarded before (sent (text message) ∷ effects) = before && guarded false effects
  guarded before (sent close ∷ effects) = before && guarded false effects

  guarded-weaken : (xs : List (Effect M)) → guarded false xs ≡ true → guarded true xs ≡ true
  guarded-weaken [] h = refl
  guarded-weaken (checked ∷ xs) h = h
  guarded-weaken (delivered m ∷ xs) h = h
  guarded-weaken (sent (pong p) ∷ xs) h = h
  guarded-weaken (sent (text m) ∷ xs) h = cc
  guarded-weaken (sent close ∷ xs) h = cc

  guarded-append :
      (b : Bool) (xs ys : List (Effect M))
      → guarded b xs ≡ true
      → guarded false ys ≡ true
      → guarded b (xs ++ ys) ≡ true
  guarded-append true [] ys h k = guarded-weaken ys k
  guarded-append false [] ys h k = k
  guarded-append b (checked ∷ xs) ys h k = guarded-append true xs ys h k
  guarded-append b (delivered m ∷ xs) ys h k = guarded-append false xs ys h k
  guarded-append b (sent (pong p) ∷ xs) ys h k = guarded-append false xs ys h k
  guarded-append true (sent (text m) ∷ xs) ys h k = guarded-append false xs ys h k
  guarded-append true (sent close ∷ xs) ys h k = guarded-append false xs ys h k
  guarded-append false (sent (text m) ∷ xs) ys h k = cc
  guarded-append false (sent close ∷ xs) ys h k = cc

  abbrev pub deliveries : List (Effect M) → List M
  deliveries [] = []
  deliveries (delivered m ∷ effects) = m ∷ deliveries effects
  deliveries (checked ∷ effects) = deliveries effects
  deliveries (sent message ∷ effects) = deliveries effects

  deliveries-append :
      (xs ys : List (Effect M)) → deliveries (xs ++ ys) ≡ deliveries xs ++ deliveries ys
  deliveries-append [] ys = refl
  deliveries-append (delivered m ∷ xs) ys = ap (λ l. m ∷ l) (deliveries-append xs ys)
  deliveries-append (checked ∷ xs) ys = deliveries-append xs ys
  deliveries-append (sent message ∷ xs) ys = deliveries-append xs ys

module _ {M : Type 0} (connector : ExchangeConnector M) (config : WsRunnerConfig)
    (writable : ℕ → Bool) (accepted : ℕ → Bool) where
  -- The messages of the text frames that were parsed, in order.
  abbrev pub parsed_frame : Frame → List M
  parsed_frame (text_frame raw) = elim (connector.parse_message raw) [
    | inl e ↦ []
    | inr msgs ↦ msgs
  ]
  parsed_frame _ = []

  abbrev pub parsed : List Event → List M
  parsed [] = []
  parsed (frame now f ∷ events) = parsed_frame f ++ parsed events
  parsed (shutdown_changed value ∷ events) = parsed events
  parsed (ping_tick now ∷ events) = parsed events

  -- Nothing is left over, if the session goes on.
  abbrev pub Leftover : List M → Next → Type 0
  Leftover rest (stay s) = rest ≡ []
  Leftover rest (stop outcome) = Unit

  -- A step is checked before it writes, and delivers from the front of `msgs`: all of it, if the
  -- session goes on.
  abbrev Sound : List M → List (Effect M) × Next → Type 0
  Sound msgs step =
      (guarded false step.0 ≡ true)
      × (rest : List M) × (msgs ≡ deliveries step.0 ++ rest)
      × Leftover rest step.1

  then-Sound :
      (xs ys : List M) (a : List (Effect M) × Next) (f : State → List (Effect M) × Next)
      → Sound xs a
      → ((s : State) → Sound ys (f s))
      → Sound (xs ++ ys) (and_then a f)
  unfolding and_then
  then-Sound xs ys (effects, stop o) f (g, rest, split, _) h =
      (g, rest ++ ys, rw split (append_assoc (deliveries effects) rest ys), tt)
  then-Sound xs ys (effects, stay s) f (g, rest, split, none_left) h =
      let (g', rest', split', left) = h s in
      (
        guarded-append false effects (f s).0 g g',
        rest',
        let whole : xs ≡ deliveries effects =
              split
              ∙ ap (λ r. deliveries effects ++ r) none_left
              ∙ append-nil (deliveries effects) in
            rw (whole, split', deliveries-append effects (f s).0)
              (sym (append_assoc (deliveries effects) (deliveries (f s).0) rest')),
        left,
      )

  send_optional-Sound :
      (message : Option Text) (s : State)
      → Sound [] (send_optional connector config writable accepted message s)
  unfolding send_optional
  send_optional-Sound none s = (refl, [], refl, refl)
  send_optional-Sound (some m) s = elim (Bool-cases (writable s.writes)) [
    | inl ok ↦ rw ok (refl, [], refl, refl)
    | inr broken ↦ rw broken (refl, [], refl, tt)
  ]

  subscribe-Sound :
      (subscriptions : List Text) (s : State)
      → Sound [] (subscribe connector config writable accepted subscriptions s)
  unfolding subscribe send_optional
  subscribe-Sound [] s = (refl, [], refl, refl)
  subscribe-Sound (m ∷ ms) s =
      then-Sound [] [] (send_text connector config writable accepted m s)
        (subscribe connector config writable accepted ms) (send_optional-Sound (some m) s)
        (λ t. subscribe-Sound ms t)

  deliver-Sound :
      (ms : List M) (s : State) → Sound ms (deliver connector config writable accepted ms s)
  unfolding deliver
  deliver-Sound [] s = (refl, [], refl, refl)
  deliver-Sound (m ∷ ms) s =
      let (g, rest, split, left) = deliver-Sound ms (record s { deliveries = s.deliveries + 1 }) in
      elim (Bool-cases (accepted s.deliveries)) [
        | inl ok ↦ rw ok (g, rest, ap (λ l. m ∷ l) split, left)
        | inr dropped ↦ rw dropped (refl, m ∷ ms, refl, tt)
      ]

  on_frame-Sound :
      (f : Frame) (s : State)
      → Sound (parsed_frame f) (on_frame connector config writable accepted f s)
  unfolding on_frame
  on_frame-Sound (text_frame raw) s =
      then-Sound [] (parsed_frame (text_frame raw))
        (send_optional connector config writable accepted (connector.response_for raw) s) _
        (send_optional-Sound (connector.response_for raw) s)
        (λ t. parse (connector.parse_message raw) t)
    where
      parse :
          (p : Text ⊎ List M) (t : State)
          → Sound
              (elim p [ inl e ↦ [] | inr msgs ↦ msgs ])
              (elim p [
                | inl e ↦ ([], stay t)
                | inr msgs ↦ deliver connector config writable accepted msgs t
              ])
      parse (inl e) t = (refl, [], refl, refl)
      parse (inr msgs) t = deliver-Sound msgs t
  on_frame-Sound (ping_frame p) s = elim (Bool-cases (writable s.writes)) [
    | inl ok ↦ rw ok (refl, [], refl, refl)
    | inr broken ↦ rw broken (refl, [], refl, tt)
  ]
  on_frame-Sound close_frame s = (refl, [], refl, tt)
  on_frame-Sound binary s = (refl, [], refl, refl)
  on_frame-Sound other_frame s = (refl, [], refl, refl)
  on_frame-Sound (failed e) s = (refl, [], refl, tt)
  on_frame-Sound ended s = (refl, [], refl, tt)

  receive-Sound :
      (events : List Event) (s : State)
      → Sound (parsed events) (receive connector config writable accepted events s)
  unfolding receive
  receive-Sound [] s = (refl, [], refl, refl)
  receive-Sound (frame now f ∷ events) s =
      then-Sound (parsed_frame f) (parsed events) _
        (receive connector config writable accepted events)
        (on_frame-Sound f (
          if is_some connector config writable accepted f
          then record s { last_frame_at = now }
          else s))
        (λ t. receive-Sound events t)
  receive-Sound (shutdown_changed value ∷ events) s =
      then-Sound [] (parsed events)
        (on_event connector config writable accepted (shutdown_changed value) s)
        (receive connector config writable accepted events) (closing value)
        (λ t. receive-Sound events t)
    where
      closing :
          (value : Bool)
          → Sound [] (on_event connector config writable accepted (shutdown_changed value) s)
      closing true = (refl, [], refl, tt)
      closing false = (refl, [], refl, refl)
  receive-Sound (ping_tick now ∷ events) s =
      then-Sound [] (parsed events) (on_event connector config writable accepted (ping_tick now) s)
        (receive connector config writable accepted events) tick (λ t. receive-Sound events t)
    where
      tick : Sound [] (on_event connector config writable accepted (ping_tick now) s)
      tick = elim (Bool-cases (is_idle connector config writable accepted now s)) [
        | inl idle ↦ rw (idle) (refl, [], refl, tt)
        | inr live ↦ rw (live) (send_optional-Sound connector.ping_message s)
      ]

  single_session-Sound :
      (c : Connect) (subscriptions : List Text) (now : ℕ) (events : List Event)
      → Sound
          (parsed events)
          (single_session connector config writable accepted c subscriptions now events)
  unfolding single_session
  single_session-Sound refused subscriptions now events = (refl, parsed events, refl, tt)
  single_session-Sound timed_out subscriptions now events = (refl, parsed events, refl, tt)
  single_session-Sound connected subscriptions now events =
      then-Sound [] (parsed events)
        (send_optional connector config writable accepted connector.auth_message _) _
        (send_optional-Sound connector.auth_message _)
        (λ t.
          then-Sound [] (parsed events)
            (subscribe connector config writable accepted subscriptions t) _
            (subscribe-Sound subscriptions t)
            (λ u. receive-Sound events (record u { last_frame_at = now })))

  -- Every write of a session but the reply to a protocol ping comes right after a check of the
  -- outbound guard, whatever the socket, the server and the receiver do.
  pub single_session-guarded :
      (c : Connect) (subscriptions : List Text) (now : ℕ) (events : List Event)
      → guarded false
          (single_session connector config writable accepted c subscriptions now events).0
        ≡ true
  single_session-guarded c subscriptions now events =
      (single_session-Sound c subscriptions now events).0

  -- What a session delivers is the beginning of what the connector parses from the text frames, in
  -- the order of the frames: nothing is reordered, repeated or left out; and as long as the session
  -- goes on it is all of it.
  pub single_session-deliveries :
      (c : Connect) (subscriptions : List Text) (now : ℕ) (events : List Event)
      → (rest : List M) × (parsed events
          ≡ deliveries
              (single_session connector config writable accepted c subscriptions now events).0
            ++ rest)
        × Leftover rest
            (single_session connector config writable accepted c subscriptions now events).1
  single_session-deliveries c subscriptions now events =
      let (_, rest, split, left) = single_session-Sound c subscriptions now events in
      (rest, split, left)
