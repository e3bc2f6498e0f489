-- ===== src/WsOrders/Tests.antt =====
-- Runs of the order channel of src/ws/orders.rs, and the theorems about them.
use exchange_apiws.Prelude.{
  ◌+◌, ◌≤◌, true, none, some, [], ◌∷◌, ◌≡◌, refl, arith, ltb, if◌then◌else◌, length,
}
use exchange_apiws.Prelude.Text.{text}
use exchange_apiws.WsOrders.{
  Channel, WsOrderAck, acked, connected, under, register, push, finish, route, leave_reader,
  tell_writer, drain, leave_writer, tell_reader, drop_queue, refuse_closed, dropped, timed_out,
}
use exchange_apiws.Prelude.Values.{Value, str, obj, end, field, value_json}
use exchange_apiws.WsOrders.Run.{
  Run, Aside, registered, pushed, routed, reader_left, writer_told, drained, writer_left,
  reader_told, queue_dropped,
}
use exchange_apiws.WsOrders.Once.{waiting, answered, Run-once}
use exchange_apiws.WsOrders.Stranded.{Run-stranded}

code : Unit {0}
unfolding register push finish route leave_reader tell_writer drain leave_writer tell_reader
    drop_queue refuse_closed
code = tt

abbrev ack : WsOrderAck
ack = record {
  client_oid = text "c1";
  order_id = some (text "o9");
  success = true;
  error_code = none;
  error_msg = none;
}

abbrev placed : Channel
unfolding code
placed = route ack (push (text "c1") (text "{}") (register (text "c1") connected)).0

acknowledged : placed.replies ≡ (0, acked ack) ∷ []
unfolding code
acknowledged = refl

one_order : Run connected placed
unfolding code
one_order =
    Run.call (text "c1") registered
      (Run.call (text "c1") (pushed (text "{}")) (Run.task (routed ack refl) Run.stop))

Run-once_example :
    (waiting 0 placed.pending + answered 0 placed.replies ≡ (if ltb 0 placed.next then 1 else 0))
    × (length (under (text "c1") placed.pending) ≤ 1)
Run-once_example = Run-once 0 (text "c1") one_order

-- The reader has ended, and the writer does not know it yet.
abbrev unread : Channel
unfolding code
unread = drain (tell_writer (leave_reader connected))

abbrev late : Channel
unfolding code
late = (push (text "c2") (text "{}") (register (text "c2") unread)).0

abbrev torn_down : Channel
unfolding code
torn_down = drop_queue (tell_reader (leave_writer late))

Run-stranded_example :
    (unread.closed ≡ true)
    × ((push (text "c2") (text "{}") (register (text "c2") unread)).1 ≡ none)
    × (waiting 0 torn_down.pending ≡ 1)
    × (answered 0 torn_down.replies ≡ 0)
    × ((finish (text "c2") (timed_out (text "5")) torn_down).0.replies
        ≡ (0, dropped) ∷ torn_down.replies)
unfolding code
Run-stranded_example =
    Run-stranded {s₀ = connected} {s = unread} {t = torn_down} (text "c2") (text "{}") (text "5")
      Run.stop refl
      (Run.task (reader_left refl) (Run.task (writer_told refl) (Run.task (drained refl) Run.stop)))
      refl refl (omega arith)
      (Aside.task (writer_left refl)
        (Aside.task (reader_told refl) (Aside.task (queue_dropped refl) Aside.stop)))

abbrev refusal_data : Value
refusal_data = obj (field (text "clientOid") (str (text "c1")) end)

abbrev refusal : Value
refusal = obj (field (text "type") (str (text "error")) (field (text "data") refusal_data end))
