-- ===== src/Runner/Tests.antt =====
-- Runs of the feed runner of src/ws/runner.rs, and the theorems about it at them.
use Prim.Native.String.{String}
use exchange_apiws.Prelude.{
  ℕ, zero, suc, ◌+◌, ◌≤◌, true, false, some, none, List, [], ◌∷◌, ◌++◌, ◌≡◌, refl, All, arith,
  length, inr, replicate,
}
use exchange_apiws.Runner.Config.{WsRunnerConfig, default}
use exchange_apiws.Runner.Guard
use exchange_apiws.Runner.Guard.{WsMsgGuard, throttle, check, checks, secs}
use exchange_apiws.Runner.Guard.Spacing.{checks-spaced, checks-boundary}
use exchange_apiws.Runner.Feed
use exchange_apiws.Runner.Feed.{
  disconnected, shutdown_requested, ws_disconnected, finished, run_feed,
}
use exchange_apiws.Runner.Feed.Disconnects.{IsUnstable}
use exchange_apiws.Runner.Feed.Budget.{run_feed-spent, run_feed-exhausts}
use exchange_apiws.Prelude.Text
use exchange_apiws.Runner.Session
use exchange_apiws.Runner.Session.{ExchangeConnector, single_session}
use exchange_apiws.Runner.Session.Order.{
  guarded, deliveries, parsed, Leftover, single_session-guarded, single_session-deliveries,
}
use exchange_apiws.Runner.Supervisor
use exchange_apiws.Runner.Supervisor.{
  WsFeedEndpoint, SupervisedConfig, Refresh, refreshed, Cycle, run_feed_supervised,
}
use exchange_apiws.Runner.Supervisor.Rounds.{
  actions, rounds, Disconnected, run_feed_supervised-gives_up,
}

code : Unit {0}
unfolding checks Guard.drop_old Guard.wait throttle run_feed Feed.gives_up run_feed_supervised
    Guard.new
code = tt

-- One message each nanosecond, 101 of them: the last waits until the first is ten seconds old.
abbrev steady : ℕ → ℕ → List (ℕ × ℕ)
steady now zero = []
steady now (suc n) = (now, now) ∷ steady (now + 1) n

abbrev brief : Feed.Session
brief = record { outcome = disconnected; uptime_secs = 3 }

abbrev long : Feed.Session
long = record { outcome = disconnected; uptime_secs = 3600 }

abbrev impatient : WsRunnerConfig
impatient = record default { max_reconnect_attempts = 1; on_event = true }

run_feed-spent_example :
    (2 ≡ 1 + 1)
    × ((before : List Feed.Session) × (bad : List Feed.Session) × (after : List Feed.Session)
        × (long ∷ brief ∷ brief ∷ [] ≡ before ++ (bad ++ after))
        × All IsUnstable bad
        × (length bad ≡ 1 + 1))
unfolding code
run_feed-spent_example = run_feed-spent impatient 2 (long ∷ brief ∷ brief ∷ []) (omega arith) refl

run_feed-exhausts_example :
    (run_feed impatient 0 ((long ∷ []) ++ ((brief ∷ brief ∷ []) ++ long ∷ []))).1
    ≡ ws_disconnected (1 + 1)
run_feed-exhausts_example =
    run_feed-exhausts impatient (long ∷ []) (brief ∷ brief ∷ []) (long ∷ []) (omega arith)
      (refl, tt) ((refl, omega arith), ((refl, omega arith), tt)) refl

abbrev endpoint : String → WsFeedEndpoint
endpoint url = record { url = url; subscriptions = [] }

abbrev turn : String → Cycle Unit
turn url = record {
  sessions = brief ∷ brief ∷ [];
  shutdown = false;
  waited = Supervisor.elapsed;
  refresh = refreshed (endpoint url);
}

abbrev supervised : SupervisedConfig
supervised = record Supervisor.default { runner = impatient; max_refresh_cycles = 1 }

abbrev bootstrap : Refresh Unit
bootstrap = refreshed (endpoint "a")

abbrev turns : List (Cycle Unit)
turns = turn "b" ∷ turn "c" ∷ []

run_feed_supervised-gives_up_example :
    (first : WsFeedEndpoint) × (bootstrap ≡ refreshed first)
    × (actions (run_feed_supervised supervised bootstrap turns).0
        ≡ rounds supervised (first ∷ endpoint "b" ∷ []) turns)
    × (length (endpoint "b" ∷ []) ≡ 1)
    × Disconnected supervised 1 2 turns
unfolding code
run_feed_supervised-gives_up_example =
    run_feed_supervised-gives_up supervised bootstrap turns 2 (omega arith) refl

abbrev sent : List ℕ
unfolding code
sent = (checks Guard.new (steady 1 100 ++ (101, 1 + secs 10) ∷ [])).1

checks-spaced_example : 1 + secs 10 ≤ 1 + secs 10
unfolding code
checks-spaced_example =
    checks-spaced (steady 1 100 ++ (101, 1 + secs 10) ∷ []) 0 1 (1 + secs 10) (ground arith) refl
      refl

abbrev old_guard : WsMsgGuard
old_guard = record { window = 5 ∷ 6 ∷ []; max_msgs = 2; window_dur = 10 }

checks-boundary_example :
    (throttle old_guard 15 ≡ 0)
    × (checks old_guard (replicate 3 (15, 15))
        ≡ (record old_guard { window = (5 ∷ 6 ∷ []) ++ replicate 3 15 }, replicate 3 15))
checks-boundary_example = checks-boundary old_guard 5 15 (6 ∷ []) 3 refl refl

-- A connector whose messages are the lengths of the frames.
abbrev connector : ExchangeConnector ℕ
connector = record {
  auth_message = some (Text.text "auth");
  ping_message = none;
  response_for = λ raw. none;
  parse_message = λ raw. inr (length raw ∷ []);
}

abbrev events : List Session.Event
events =
    Session.frame 5 (Session.text_frame (Text.text "abc"))
    ∷ Session.frame 6 (Session.ping_frame [])
    ∷ Session.frame 7 (Session.text_frame (Text.text "ab"))
    ∷ Session.shutdown_changed true
    ∷ []

single_session-guarded_example :
    guarded false
      (single_session connector default
        (λ n. true)
        (λ n. true)
        Session.connected
        (Text.text "sub" ∷ [])
        1
        events).0
    ≡ true
single_session-guarded_example =
    single_session-guarded connector default (λ n. true) (λ n. true) Session.connected
      (Text.text "sub" ∷ []) 1 events

single_session-deliveries_example :
    (rest : List ℕ) × (parsed connector default (λ n. true) (λ n. true) events
      ≡ deliveries
          (single_session connector default
            (λ n. true)
            (λ n. true)
            Session.connected
            (Text.text "sub" ∷ [])
            1
            events).0
        ++ rest)
    × Leftover connector default
        (λ n. true)
        (λ n. true)
        rest
        (single_session connector default
          (λ n. true)
          (λ n. true)
          Session.connected
          (Text.text "sub" ∷ [])
          1
          events).1
single_session-deliveries_example =
    single_session-deliveries connector default (λ n. true) (λ n. true) Session.connected
      (Text.text "sub" ∷ []) 1 events
