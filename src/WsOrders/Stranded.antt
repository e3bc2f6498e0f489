-- ===== src/WsOrders/Stranded.antt =====
-- A call of `send_and_await` of src/ws/orders.rs that the end of the reader overtakes: it looked at the
-- channel before, and registers its request after.
use exchange_apiws.Prelude.{
  ℕ, ◌<◌, true, false, none, List, [], ◌∷◌, ◌++◌, ◌≡◌, ◌≢◌, refl, sym, ap, subst, ◌∙◌, arith,
  length, Bool-cases, inl, inr,
}
use exchange_apiws.Prelude.Text.{Text, same, same_refl, eq_of_same}
use exchange_apiws.WsOrders.{
  Channel, dropped, acked, received, timed_out, running, ended, connected, under, without,
  has_ended, refuse_closed, remove, register, try_send, push, finish, route, leave_reader,
  tell_writer, drain, leave_writer, tell_reader, drop_queue, mark_closed, send_shutdown, take_frame,
}
use exchange_apiws.WsOrders.Run.{
  Call, registered, pushed, finished, Task, closed, shut_down, routed, reader_left, writer_told,
  drained, taken, writer_left, reader_told, queue_dropped, Run, Run-keeps, Aside, Aside-keeps,
}
use exchange_apiws.WsOrders.Once.{
  waiting, answered, waiting-split, under-without, push-cases, take_frame-same, Inv, Call-Inv,
  Task-Inv, connected-Inv,
}

-- A reader that has left its loop has marked the channel closed, and nothing opens it again.
abbrev MarksClosed : Channel → Type 0
MarksClosed s = s.reader ≢ running → s.closed ≡ true

Task-MarksClosed : (s t : Channel) → Task s t → MarksClosed s → MarksClosed t
unfolding leave_reader tell_writer leave_writer tell_reader drop_queue mark_closed send_shutdown
    drain route take_frame
Task-MarksClosed s _ closed v = λ r. refl
Task-MarksClosed s _ shut_down v = v
Task-MarksClosed s _ (routed ack e) v = v
Task-MarksClosed s _ (reader_left e) v = λ r. refl
Task-MarksClosed s _ (writer_told e) v = λ r. v (λ x. cc)
Task-MarksClosed s _ (drained e) v = λ r. v (λ x. cc)
Task-MarksClosed s _ (taken e) v =
    let (_, _, _, r, c) = take_frame-same s in λ n. c ∙ v (λ x. n (r ∙ x))
Task-MarksClosed s _ (writer_left e) v = λ r. refl
Task-MarksClosed s _ (reader_told e) v = v
Task-MarksClosed s _ (queue_dropped e) v = v

Call-MarksClosed : (oid : Text) (s t : Channel) → Call oid s t → MarksClosed s → MarksClosed t
unfolding register remove finish
Call-MarksClosed oid s _ registered v = v
Call-MarksClosed oid s _ (pushed frame) v = elim (push-cases oid frame s) [
  | inl e ↦ subst MarksClosed (sym e) v
  | inr e ↦ subst MarksClosed (sym e) v
]
Call-MarksClosed oid s _ (finished (received (acked ack))) v = v
Call-MarksClosed oid s _ (finished (received dropped)) v = v
Call-MarksClosed oid s _ (finished (timed_out secs)) v = v

-- Removing what stands under one key leaves the others.
under-without_other :
    (key other : Text) (entries : List (Text × ℕ))
    → same other key ≡ false
    → under key (without other entries) ≡ under key entries
under-without_other key other [] d = refl
under-without_other key other ((oid, n) ∷ entries) d = elim (Bool-cases (same oid other)) [
  | inl e ↦
      let apart : same oid key ≡ false = rw (eq_of_same oid other e) d in
      ground (arith, under-without_other key other entries d)
  | inr e ↦ ground (arith, under-without_other key other entries d)
]

-- The reader has ended, and a request waits under an id.
record Stranded (oid : Text) (n : ℕ) (s : Channel) : Type 0 where
  over : s.reader ≡ ended
  waits : under oid s.pending ≡ (oid, n) ∷ []
  made : n < s.next
  inv : Inv s

Stranded-remove :
    (oid other : Text) (n : ℕ) (s : Channel)
    → same other oid ≡ false
    → Stranded oid n s
    → Inv (remove other s)
    → Stranded oid n (remove other s)
unfolding remove
Stranded-remove oid other n s d v w = record {
  over = v.over;
  waits = under-without_other oid other s.pending d ∙ v.waits;
  made = v.made;
  inv = w;
}

-- A step that leaves the requests and the reader alone.
Stranded-same :
    (oid : Text) (n : ℕ) (s t : Channel)
    → t.reader ≡ s.reader
    → t.pending ≡ s.pending
    → t.next ≡ s.next
    → Stranded oid n s
    → Inv t
    → Stranded oid n t
Stranded-same oid n s t r p x v w = record {
  over = r ∙ v.over;
  waits = ap (under oid) p ∙ v.waits;
  made = rw x v.made;
  inv = w;
}

Call-Stranded :
    (oid : Text) (n : ℕ) (other : Text) (s t : Channel)
    → same other oid ≡ false
    → Call other s t
    → Stranded oid n s
    → Stranded oid n t
unfolding register remove finish
Call-Stranded oid n other s _ d registered v = record {
  over = v.over;
  waits = rw d (under-without_other oid other s.pending d ∙ v.waits);
  made = omega (arith, v.made);
  inv = Call-Inv other s _ registered v.inv;
}
Call-Stranded oid n other s t d (pushed frame) v =
    let w = Call-Inv other s _ (pushed frame) v.inv in
    elim (push-cases other frame s) [
      | inl e ↦ subst (Stranded oid n) (sym e) (Stranded-remove oid other n s d v (subst Inv e w))
      | inr e ↦
          subst (Stranded oid n) (sym e) (Stranded-same oid n s _ refl refl refl v (subst Inv e w))
    ]
Call-Stranded oid n other s _ d (finished (received (acked ack))) v = v
Call-Stranded oid n other s t d (finished (received dropped)) v =
    Stranded-remove oid other n s d v (Call-Inv other s _ (finished (received dropped)) v.inv)
Call-Stranded oid n other s t d (finished (timed_out secs)) v =
    Stranded-remove oid other n s d v (Call-Inv other s _ (finished (timed_out secs)) v.inv)

Task-Stranded :
    (oid : Text) (n : ℕ) (s t : Channel) → Task s t → Stranded oid n s → Stranded oid n t
unfolding leave_writer tell_reader drop_queue mark_closed send_shutdown
Task-Stranded oid n s _ closed v =
    Stranded-same oid n s _ refl refl refl v (Task-Inv s _ closed v.inv)
Task-Stranded oid n s _ shut_down v =
    Stranded-same oid n s _ refl refl refl v (Task-Inv s _ shut_down v.inv)
Task-Stranded oid n s _ (routed ack e) v = absurd (let o = v.over in cc)
Task-Stranded oid n s _ (reader_left e) v = absurd (let o = v.over in cc)
Task-Stranded oid n s _ (writer_told e) v = absurd (let o = v.over in cc)
Task-Stranded oid n s _ (drained e) v = absurd (let o = v.over in cc)
Task-Stranded oid n s _ (taken e) v =
    let (p, _, x, r, _) = take_frame-same s in
    Stranded-same oid n s _ r p x v (Task-Inv s _ (taken e) v.inv)
Task-Stranded oid n s _ (writer_left e) v =
    Stranded-same oid n s _ refl refl refl v (Task-Inv s _ (writer_left e) v.inv)
Task-Stranded oid n s _ (reader_told e) v =
    Stranded-same oid n s _ refl refl refl v (Task-Inv s _ (reader_told e) v.inv)
Task-Stranded oid n s _ (queue_dropped e) v =
    Stranded-same oid n s _ refl refl refl v (Task-Inv s _ (queue_dropped e) v.inv)

-- The request that a call registers and pushes while the queue has room.
accepted :
    (oid frame : Text) (s : Channel)
    → has_ended s.writer ≡ false
    → length s.queue < 256
    → ((push oid frame (register oid s)).1 ≡ none)
      × ((push oid frame (register oid s)).0
          ≡ record (register oid s) { queue = s.queue ++ frame ∷ [] })
unfolding push register remove try_send
accepted oid frame s live room = ground arith

Stranded-accepted :
    (oid frame : Text) (s : Channel)
    → s.reader ≡ ended
    → has_ended s.writer ≡ false
    → length s.queue < 256
    → Inv s
    → Stranded oid s.next (push oid frame (register oid s)).0
unfolding register remove
Stranded-accepted oid frame s over live room v =
    let w = Call-Inv oid _ _ (pushed frame) (Call-Inv oid s _ registered v) in
    let (_, e) = accepted oid frame s live room in
    subst (Stranded oid s.next) (sym e) (record {
      over = over;
      waits = rw (same_refl oid, under-without oid s.pending) refl;
      made = omega arith;
      inv = subst Inv e w;
    })

Stranded-waiting :
    (oid : Text) (n : ℕ) (s : Channel)
    → Stranded oid n s
    → (waiting n s.pending ≡ 1) × (answered n s.replies ≡ 0)
Stranded-waiting oid n s v =
    let one : waiting n (under oid s.pending) ≡ 1 = rw v.waits (ground arith) in
    ground (arith, v.inv.once n, v.made, waiting-split n oid s.pending)

-- A call that found the channel open and registers its request only after the reader has ended is
-- stranded. Its request is accepted although the channel is marked closed by then, if the queue has
-- room and the writer's task still lives; and from there, whatever the tasks do and all calls under
-- other ids, the ends of the writer and of the queue included, the request waits and gets no answer,
-- until the call's timeout takes it out of the map.
pub Run-stranded :
    {s₀ s t : Channel} (oid frame secs : Text)
    → Run connected s₀
    → refuse_closed s₀ ≡ none
    → Run s₀ s
    → s.reader ≡ ended
    → has_ended s.writer ≡ false
    → length s.queue < 256
    → Aside oid (push oid frame (register oid s)).0 t
    → (s.closed ≡ true)
      × ((push oid frame (register oid s)).1 ≡ none)
      × (waiting s.next t.pending ≡ 1)
      × (answered s.next t.replies ≡ 0)
      × ((finish oid (timed_out secs) t).0.replies ≡ (s.next, dropped) ∷ t.replies)
unfolding finish remove
Run-stranded {s₀} {s} {t} oid frame secs before found between over live room aside =
    let v =
      Run-keeps Inv Task-Inv Call-Inv between
        (Run-keeps Inv Task-Inv Call-Inv before connected-Inv) in
    let marked =
      Run-keeps MarksClosed Task-MarksClosed Call-MarksClosed between
        (Run-keeps MarksClosed Task-MarksClosed Call-MarksClosed before (λ r. absurd (r refl))) in
    let waits =
      Aside-keeps (Stranded oid s.next) (Task-Stranded oid s.next) oid
        (λ other a b d st x. Call-Stranded oid s.next other a b d st x) aside
        (Stranded-accepted oid frame s over live room v) in
    let (one, zero) = Stranded-waiting oid s.next t waits in
    (marked (λ r. cc), (accepted oid frame s live room).0, one, zero, rw waits.waits refl)
