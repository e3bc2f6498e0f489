-- ===== src/WsOrders.antt =====
-- src/ws/orders.rs: the order channel. The map of the requests that wait, the queue to the writer, and
-- the two tasks are one state; each atomic access of a caller or a task is a function on it.
pub mod Run
pub mod Once
pub mod Stranded
pub mod Inbound
mod Tests
use exchange_apiws.Prelude.{
  ℕ, ◌+◌, Bool, true, false, Option, none, some, List, [], ◌∷◌, ◌++◌, map, ◌⊎◌, inl, inr, leb,
  length, if◌then◌else◌,
}
use exchange_apiws.Prelude.Text.{Text, text, same}
use exchange_apiws.Error.{ExchangeError, order}

-- The field `raw`, the frame as it came, is left out.
pub record WsOrderAck : Type 0 where
  pub client_oid : Text
  pub order_id : Option Text
  pub success : Bool
  pub error_code : Option Text
  pub error_msg : Option Text

-- What the receiver of a request's `oneshot` gets: a value, or the news that its sender is gone.
pub data Reply : Type 0 where
  acked : WsOrderAck → Reply
  dropped : Reply

-- Where a task is: in its loop, or after it, between the accesses of its end.
pub data Phase : Type 0 where
  running leaving told ended : Phase

-- A `oneshot` is the number of its creation. `replies` holds what each that is no longer waiting got.
pub record Channel : Type 0 where
  pub pending : List (Text × ℕ)
  pub queue : List Text
  pub closed : Bool
  pub shutdown : Bool
  pub writer : Phase
  pub reader : Phase
  pub next : ℕ
  pub replies : List (ℕ × Reply)

abbrev pub outbound_queue_capacity : ℕ
outbound_queue_capacity = 256

abbrev pub closed_ack : WsOrderAck
closed_ack = record {
  client_oid = [];
  order_id = none;
  success = false;
  error_code = some (text "connection_closed");
  error_msg = some (text "WS-order connection closed");
}

-- The channel that `connect` makes.
abbrev pub connected : Channel
connected = record {
  pending = [];
  queue = [];
  closed = false;
  shutdown = false;
  writer = running;
  reader = running;
  next = 0;
  replies = [];
}

-- The entries of the map under a key, and the others.
abbrev pub under : Text → List (Text × ℕ) → List (Text × ℕ)
under key [] = []
under key ((oid, n) ∷ entries) =
    let rest = under key entries in if same oid key then (oid, n) ∷ rest else rest

abbrev pub without : Text → List (Text × ℕ) → List (Text × ℕ)
without key [] = []
without key ((oid, n) ∷ entries) =
    let rest = without key entries in if same oid key then rest else (oid, n) ∷ rest

-- Each of the entries gets the same reply.
abbrev pub answer : Reply → List (Text × ℕ) → List (ℕ × Reply)
answer reply [] = []
answer reply ((oid, n) ∷ entries) = (n, reply) ∷ answer reply entries

-- The refusal of `send_and_await` on a channel that it finds closed.
unfoldable pub refuse_closed : Channel → Option ExchangeError
refuse_closed s = if s.closed then some (order (text "WS-order connection is closed")) else none

-- `pending.remove(oid)` whose value is dropped.
unfoldable pub remove : Text → Channel → Channel
remove oid s = record s {
  pending = without oid s.pending;
  replies = answer dropped (under oid s.pending) ++ s.replies;
}

-- `oneshot::channel()` and `pending.insert(oid, tx)`: a sender that is replaced is dropped.
unfoldable pub register : Text → Channel → Channel
unfolding remove
register oid s =
    let t = remove oid s in record t { pending = (oid, s.next) ∷ t.pending; next = s.next + 1 }

pub data TrySend : Type 0 where
  queued full disconnected : TrySend

abbrev pub has_ended : Phase → Bool
has_ended running = false
has_ended leaving = false
has_ended told = false
has_ended ended = true

-- `outbound.try_send(frame)`: the receiver lives as long as the writer's task.
unfoldable pub try_send : Text → Channel → Channel × TrySend
try_send frame s =
    if has_ended s.writer
    then (s, disconnected)
    else if leb outbound_queue_capacity (length s.queue)
    then (s, full)
    else (record s { queue = s.queue ++ frame ∷ [] }, queued)

-- The dash is three bytes of UTF-8.
abbrev pub full_message : Text
full_message =
    text "WS-order outbound queue is full (256 frames) "
    ++ ((226 ∷ 128 ∷ 148 ∷ []) ++ text " writer is rate-limited or stalled")

-- The part of `send_and_await` after the registration and before the wait.
unfoldable pub push : Text → Text → Channel → Channel × Option ExchangeError
unfolding try_send remove
push oid frame s =
    let (t, sent) = try_send frame s in
    elim sent [
      | queued ↦ (t, none)
      | full ↦ (remove oid t, some (order full_message))
      | disconnected ↦ (remove oid t, some (order (text "WS-order writer task is closed")))
    ]

-- How the wait of `send_and_await` ends, and what the call does then. A timeout carries its seconds
-- as printed.
pub data Awaited : Type 0 where
  received : Reply → Awaited
  timed_out : Text → Awaited

unfoldable pub finish : Text → Awaited → Channel → Channel × (ExchangeError ⊎ WsOrderAck)
unfolding remove
finish oid (received (acked ack)) s = (s, inr ack)
finish oid (received dropped) s =
    (remove oid s, inl (order (text "WS-order response channel closed before ack arrived")))
finish oid (timed_out secs) s =
    (remove oid s, inl (order (text "WS-order request timed out after " ++ (secs ++ text " s"))))

-- The reader's handling of an acknowledgement.
unfoldable pub route : WsOrderAck → Channel → Channel
route ack s = record s {
  pending = without ack.client_oid s.pending;
  replies = answer (acked ack) (under ack.client_oid s.pending) ++ s.replies;
}

-- The end of the reader task, access by access: it marks the channel closed, tells the writer, and
-- fails the requests that wait, under one lock.
unfoldable pub leave_reader : Channel → Channel
leave_reader s = record s { closed = true; reader = leaving }

unfoldable pub tell_writer : Channel → Channel
tell_writer s = record s { shutdown = true; reader = told }

unfoldable pub drain : Channel → Channel
drain s = record s {
  pending = [];
  reader = ended;
  replies = answer (acked closed_ack) s.pending ++ s.replies;
}

-- The end of the writer task; the queue goes with it.
unfoldable pub leave_writer : Channel → Channel
leave_writer s = record s { closed = true; writer = leaving }

unfoldable pub tell_reader : Channel → Channel
tell_reader s = record s { shutdown = true; writer = told }

unfoldable pub drop_queue : Channel → Channel
drop_queue s = record s { queue = []; writer = ended }

-- `close`, in its two accesses.
unfoldable pub mark_closed : Channel → Channel
mark_closed s = record s { closed = true }

unfoldable pub send_shutdown : Channel → Channel
send_shutdown s = record s { shutdown = true }

-- The writer takes a frame from the queue.
unfoldable pub take_frame : Channel → Channel × Option Text
take_frame s = elim s.queue [
  | [] ↦ (s, none)
  | ◌∷◌ frame frames ↦ (record s { queue = frames }, some frame)
]
