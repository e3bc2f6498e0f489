-- ===== src/WsOrders/Once.antt =====
-- Each request on the order channel of src/ws/orders.rs is answered at most once.
use exchange_apiws.Prelude.{
  ℕ, ◌+◌, ◌≤◌, List, [], ◌∷◌, ◌++◌, ◌≡◌, refl, sym, subst, ◌⊎◌, arith, ltb, ◌==◌, length,
  if◌then◌else◌, Bool-cases, inl, inr,
}
use exchange_apiws.Prelude.Text.{Text, same, same_refl, eq_of_same}
use exchange_apiws.WsOrders.{
  Channel, WsOrderAck, Reply, acked, dropped, Awaited, received, timed_out, connected, under,
  without, answer, remove, register, push, finish, route, drain, leave_reader, tell_writer,
  leave_writer, tell_reader, drop_queue, mark_closed, send_shutdown, take_frame, closed_ack,
}
use exchange_apiws.WsOrders.Run.{
  Call, registered, pushed, finished, Task, closed, shut_down, routed, reader_left, writer_told,
  drained, taken, writer_left, reader_told, queue_dropped, Run, Run-keeps,
}

-- How often a request waits, and how often it was answered.
abbrev pub waiting : ℕ → List (Text × ℕ) → ℕ
waiting n [] = 0
waiting n ((oid, m) ∷ entries) = (if m == n then 1 else 0) + waiting n entries

abbrev pub answered : ℕ → List (ℕ × Reply) → ℕ
answered n [] = 0
answered n ((m, reply) ∷ replies) = (if m == n then 1 else 0) + answered n replies

pub waiting-split :
    (n : ℕ) (key : Text) (entries : List (Text × ℕ))
    → waiting n (under key entries) + waiting n (without key entries) ≡ waiting n entries
waiting-split n key [] = omega arith
waiting-split n key ((oid, m) ∷ entries) = ground (arith, waiting-split n key entries)

answered-answer :
    (n : ℕ) (reply : Reply) (entries : List (Text × ℕ)) (replies : List (ℕ × Reply))
    → answered n (answer reply entries ++ replies) ≡ waiting n entries + answered n replies
answered-answer n reply [] replies = omega arith
answered-answer n reply ((oid, m) ∷ entries) replies =
    omega (arith, answered-answer n reply entries replies)

pub under-without : (key : Text) (entries : List (Text × ℕ)) → under key (without key entries) ≡ []
under-without key [] = refl
under-without key ((oid, m) ∷ entries) = ground (arith, under-without key entries)

length-under-without :
    (key other : Text) (entries : List (Text × ℕ))
    → length (under key (without other entries)) ≤ length (under key entries)
length-under-without key other [] = omega arith
length-under-without key other ((oid, m) ∷ entries) =
    ground (arith, length-under-without key other entries)

-- Every request that was made waits or was answered, and that once; no two wait under one key.
pub record Inv (s : Channel) : Type 0 where
  pub once : (n : ℕ) → waiting n s.pending + answered n s.replies ≡ (if ltb n s.next then 1 else 0)
  pub unique : (key : Text) → length (under key s.pending) ≤ 1

Inv-remove : (oid : Text) (s : Channel) → Inv s → Inv (remove oid s)
unfolding remove
Inv-remove oid s v = record {
  once = λ n. omega (
    arith,
    v.once n,
    waiting-split n oid s.pending,
    answered-answer n dropped (under oid s.pending) s.replies,
  );
  unique = λ key. omega (arith, v.unique key, length-under-without key oid s.pending);
}

Inv-register : (oid : Text) (s : Channel) → Inv s → Inv (register oid s)
unfolding register remove
Inv-register oid s v =
    let w = Inv-remove oid s v in
    record {
      once = λ n. ground (arith, w.once n);
      unique = λ key. elim (Bool-cases (same oid key)) [
        | inl e ↦
            let none_left : under key (without oid s.pending) ≡ [] =
              rw (eq_of_same oid key e) (under-without key s.pending) in
            rw (e, none_left) (omega arith)
        | inr e ↦ rw e (w.unique key)
      ];
    }

Inv-route : (ack : WsOrderAck) (s : Channel) → Inv s → Inv (route ack s)
unfolding route
Inv-route ack s v = record {
  once = λ n. omega (
    arith,
    v.once n,
    waiting-split n ack.client_oid s.pending,
    answered-answer n (acked ack) (under ack.client_oid s.pending) s.replies,
  );
  unique = λ key. omega (arith, v.unique key, length-under-without key ack.client_oid s.pending);
}

Inv-drain : (s : Channel) → Inv s → Inv (drain s)
unfolding drain
Inv-drain s v = record {
  once = λ n. omega (arith, v.once n, answered-answer n (acked closed_ack) s.pending s.replies);
  unique = λ key. omega arith;
}

-- A step that leaves the requests alone.
Inv-same :
    (s t : Channel)
    → t.pending ≡ s.pending
    → t.replies ≡ s.replies
    → t.next ≡ s.next
    → Inv s
    → Inv t
Inv-same s t p r x v = record {
  once = λ n. rw (p, r, x) (v.once n);
  unique = λ key. rw p (v.unique key);
}

pub push-cases :
    (oid frame : Text) (s : Channel)
    → ((push oid frame s).0 ≡ remove oid s)
      ⊎ ((push oid frame s).0 ≡ record s { queue = s.queue ++ frame ∷ [] })
unfolding push
push-cases oid frame s = ground arith

Inv-push : (oid frame : Text) (s : Channel) → Inv s → Inv (push oid frame s).0
Inv-push oid frame s v = elim (push-cases oid frame s) [
  | inl e ↦ subst Inv (sym e) (Inv-remove oid s v)
  | inr e ↦ subst Inv (sym e) (Inv-same s _ refl refl refl v)
]

Inv-finish : (oid : Text) (awaited : Awaited) (s : Channel) → Inv s → Inv (finish oid awaited s).0
unfolding finish
Inv-finish oid (received (acked ack)) s v = v
Inv-finish oid (received dropped) s v = Inv-remove oid s v
Inv-finish oid (timed_out secs) s v = Inv-remove oid s v

pub take_frame-same :
    (s : Channel)
    → ((take_frame s).0.pending ≡ s.pending)
      × ((take_frame s).0.replies ≡ s.replies)
      × ((take_frame s).0.next ≡ s.next)
      × ((take_frame s).0.reader ≡ s.reader)
      × ((take_frame s).0.closed ≡ s.closed)
unfolding take_frame
take_frame-same s = ground arith

pub Call-Inv : (oid : Text) (s t : Channel) → Call oid s t → Inv s → Inv t
Call-Inv oid s _ registered v = Inv-register oid s v
Call-Inv oid s _ (pushed frame) v = Inv-push oid frame s v
Call-Inv oid s _ (finished awaited) v = Inv-finish oid awaited s v

pub Task-Inv : (s t : Channel) → Task s t → Inv s → Inv t
unfolding leave_reader tell_writer leave_writer tell_reader drop_queue mark_closed send_shutdown
Task-Inv s _ closed v = Inv-same s (mark_closed s) refl refl refl v
Task-Inv s _ shut_down v = Inv-same s (send_shutdown s) refl refl refl v
Task-Inv s _ (routed ack e) v = Inv-route ack s v
Task-Inv s _ (reader_left e) v = Inv-same s (leave_reader s) refl refl refl v
Task-Inv s _ (writer_told e) v = Inv-same s (tell_writer s) refl refl refl v
Task-Inv s _ (drained e) v = Inv-drain s v
Task-Inv s _ (taken e) v =
    let (p, r, x, _, _) = take_frame-same s in Inv-same s (take_frame s).0 p r x v
Task-Inv s _ (writer_left e) v = Inv-same s (leave_writer s) refl refl refl v
Task-Inv s _ (reader_told e) v = Inv-same s (tell_reader s) refl refl refl v
Task-Inv s _ (queue_dropped e) v = Inv-same s (drop_queue s) refl refl refl v

pub connected-Inv : Inv connected
connected-Inv = record { once = λ n. ground arith; unique = λ key. omega arith }

-- On a channel that began connected, however callers and tasks interleave, every request made so far
-- is either waiting or answered, and that exactly once, a request not made yet is neither, and an
-- acknowledgement finds at most one request under its id.
pub Run-once :
    {s : Channel} (n : ℕ) (key : Text)
    → Run connected s
    → (waiting n s.pending + answered n s.replies ≡ (if ltb n s.next then 1 else 0))
      × (length (under key s.pending) ≤ 1)
Run-once n key r =
    let v = Run-keeps Inv Task-Inv Call-Inv r connected-Inv in (v.once n, v.unique key)

-- Two requests under one id: the second replaces the first, whose call then removes what stands
-- under the id, so that the second fails too, although nothing has answered it.
pub finish-reused :
    (oid : Text) (s : Channel)
    → (finish oid (received dropped) (register oid (register oid s))).0.replies
      ≡ (s.next + 1, dropped)
        ∷ (s.next, dropped)
        ∷ (answer dropped (under oid s.pending) ++ s.replies)
unfolding finish register
finish-reused oid s =
    rw (same_refl oid, under-without oid (without oid s.pending), under-without oid s.pending) refl
