-- ===== src/WsOrders/Run.antt =====
-- The runs of the order channel of src/ws/orders.rs: the atomic steps of any number of callers and of
-- the two tasks, in any order. A caller's steps are not tied to its earlier ones, so every
-- interleaving of the code is such a run. A task may leave its loop at any time, since its socket may
-- fail.
use exchange_apiws.Prelude.{false, ◌≡◌}
use exchange_apiws.Prelude.Text.{Text, same}
use exchange_apiws.WsOrders.{
  Channel, WsOrderAck, Awaited, running, leaving, told, register, push, finish, route, leave_reader,
  tell_writer, drain, leave_writer, tell_reader, drop_queue, mark_closed, send_shutdown, take_frame,
}

-- The steps of a call of `send_and_await` under an id, after its check that the channel is open.
pub data Call (oid : Text) : Channel → Channel → Type 0 where
  registered : {s : Channel} → Call oid s (register oid s)
  pushed : {s : Channel} (frame : Text) → Call oid s (push oid frame s).0
  finished : {s : Channel} (awaited : Awaited) → Call oid s (finish oid awaited s).0

-- The steps of the tasks, and of `close`.
pub data Task : Channel → Channel → Type 0 where
  closed : {s : Channel} → Task s (mark_closed s)
  shut_down : {s : Channel} → Task s (send_shutdown s)
  routed : {s : Channel} (ack : WsOrderAck) → s.reader ≡ running → Task s (route ack s)
  reader_left : {s : Channel} → s.reader ≡ running → Task s (leave_reader s)
  writer_told : {s : Channel} → s.reader ≡ leaving → Task s (tell_writer s)
  drained : {s : Channel} → s.reader ≡ told → Task s (drain s)
  taken : {s : Channel} → s.writer ≡ running → Task s (take_frame s).0
  writer_left : {s : Channel} → s.writer ≡ running → Task s (leave_writer s)
  reader_told : {s : Channel} → s.writer ≡ leaving → Task s (tell_reader s)
  queue_dropped : {s : Channel} → s.writer ≡ told → Task s (drop_queue s)

pub data Run : Channel → Channel → Type 0 where
  stop : {s : Channel} → Run s s
  call : {s t u : Channel} (oid : Text) → Call oid s t → Run t u → Run s u
  task : {s t u : Channel} → Task s t → Run t u → Run s u

-- A run in which no step is one of a call under the id.
pub data Aside (oid : Text) : Channel → Channel → Type 0 where
  stop : {s : Channel} → Aside oid s s
  call :
      {s t u : Channel} (other : Text)
      → same other oid ≡ false
      → Call other s t
      → Aside oid t u
      → Aside oid s u
  task : {s t u : Channel} → Task s t → Aside oid t u → Aside oid s u

-- What holds at the start and is kept by every step holds at the end.
module _ (P : Channel → Type 0) (tasks : (s t : Channel) → Task s t → P s → P t) where
  pub Run-keeps :
      (calls : (oid : Text) (s t : Channel) → Call oid s t → P s → P t) {s t : Channel}
      → Run s t
      → P s
      → P t
  Run-keeps calls Run.stop p = p
  Run-keeps calls (Run.call {s = s} {t = t} oid st r) p = Run-keeps calls r (calls oid s t st p)
  Run-keeps calls (Run.task {s = s} {t = t} st r) p = Run-keeps calls r (tasks s t st p)

  pub Aside-keeps :
      (oid : Text)
      (calls : (other : Text) (s t : Channel) → same other oid ≡ false → Call other s t → P s → P t)
      {s t : Channel}
      → Aside oid s t
      → P s
      → P t
  Aside-keeps oid calls Aside.stop p = p
  Aside-keeps oid calls (Aside.call {s = s} {t = t} other e st r) p =
      Aside-keeps oid calls r (calls other s t e st p)
  Aside-keeps oid calls (Aside.task {s = s} {t = t} st r) p =
      Aside-keeps oid calls r (tasks s t st p)
