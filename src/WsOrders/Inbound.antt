-- ===== src/WsOrders/Inbound.antt =====
-- `parse_inbound` of src/ws/orders.rs, and what a frame does to the channel.
use exchange_apiws.Prelude.{
  ℕ, true, false, Option, none, some, [], ◌∷◌, ◌≡◌, refl, ◌∙◌, arith, if◌then◌else◌, not,
}
use exchange_apiws.Prelude.Text.{Text, text, same, one_of}
use exchange_apiws.Prelude.Options.{◌>>=◌, unwrap_or, or_else}
use exchange_apiws.Prelude.Json.{Json, str_at}
use exchange_apiws.WsOrders.{WsOrderAck, Channel, acked, under, without, route}

module _ {V : Type 0} ⦃j : Json V⦄ where
  -- The acknowledgement in a decoded frame of a type with a `data`.
  unfoldable pub ack_of : Text → V → V → Option WsOrderAck
  ack_of msg_type v payload = do
    client_oid ← str_at payload (text "clientOid")
    some (
        if same msg_type (text "error")
        then record {
          client_oid = client_oid;
          order_id = str_at payload (text "orderId");
          success = false;
          error_code = or_else (str_at v (text "code")) (str_at payload (text "code"));
          error_msg =
              or_else (str_at payload (text "msg"))
                (or_else (str_at v (text "msg")) (j.as_str payload));
        }
        else record {
          client_oid = client_oid;
          order_id = str_at payload (text "orderId");
          success = true;
          error_code = none;
          error_msg = none;
        })

  -- `decode` is serde_json's `from_str`, where it succeeds.
  unfoldable pub parse_inbound : (Text → Option V) → Text → Option WsOrderAck
  unfolding ack_of
  parse_inbound decode raw = do
    v ← decode raw
    let msg_type = unwrap_or (str_at v (text "type")) []
    payload ←
        (if one_of msg_type (text "welcome" ∷ text "pong" ∷ text "ping" ∷ [])
          then none
          else j.get v (text "data"))
    ack_of msg_type v payload

  -- The reader on a text frame.
  unfoldable pub on_text : (Text → Option V) → Text → Channel → Channel
  unfolding route
  on_text decode raw s = elim (parse_inbound decode raw) [ none ↦ s | some ack ↦ route ack s ]

  parse_inbound-ack_of :
      (decode : Text → Option V) (raw : Text) (v payload : V) (msg_type : Text)
      → decode raw ≡ some v
      → str_at v (text "type") ≡ some msg_type
      → one_of msg_type (text "welcome" ∷ text "pong" ∷ text "ping" ∷ []) ≡ false
      → j.get v (text "data") ≡ some payload
      → parse_inbound decode raw ≡ ack_of msg_type v payload
  unfolding parse_inbound
  parse_inbound-ack_of decode raw v payload msg_type d t o p = rw (parse_inbound, d, t, o, p) refl

  ack_of-some :
      (msg_type oid : Text) (v payload : V)
      → str_at payload (text "clientOid") ≡ some oid
      → (ack : WsOrderAck) × (ack_of msg_type v payload ≡ some ack)
        × (ack.client_oid ≡ oid)
        × (ack.success ≡ not (same msg_type (text "error")))
  unfolding ack_of
  ack_of-some msg_type oid v payload c = (
    if same msg_type (text "error")
        then record {
          client_oid = oid;
          order_id = str_at payload (text "orderId");
          success = false;
          error_code = or_else (str_at v (text "code")) (str_at payload (text "code"));
          error_msg =
              or_else (str_at payload (text "msg"))
                (or_else (str_at v (text "msg")) (j.as_str payload));
        }
        else record {
          client_oid = oid;
          order_id = str_at payload (text "orderId");
          success = true;
          error_code = none;
          error_msg = none;
        },
    rw (ack_of, c) refl,
    ground arith,
    ground arith,
  )

  -- A frame with a client's id, of any type but the three that the exchange greets and pings with,
  -- answers the one request that waits under this id, and no other, with an acknowledgement that
  -- says success unless the type is `error`; the request waits no more.
  pub on_text-answers :
      (decode : Text → Option V) (raw : Text) (v payload : V) (msg_type oid : Text) (n : ℕ)
      (s : Channel)
      → decode raw ≡ some v
      → str_at v (text "type") ≡ some msg_type
      → one_of msg_type (text "welcome" ∷ text "pong" ∷ text "ping" ∷ []) ≡ false
      → j.get v (text "data") ≡ some payload
      → str_at payload (text "clientOid") ≡ some oid
      → under oid s.pending ≡ (oid, n) ∷ []
      → (ack : WsOrderAck) × (ack.client_oid ≡ oid)
        × (ack.success ≡ not (same msg_type (text "error")))
        × (on_text decode raw s
            ≡ record s { pending = without oid s.pending; replies = (n, acked ack) ∷ s.replies })
  unfolding on_text
  on_text-answers decode raw v payload msg_type oid n s d t o p c u =
      let (ack, made, named, told) = ack_of-some msg_type oid v payload c in
      let parsed = parse_inbound-ack_of decode raw v payload msg_type d t o p ∙ made in
      (ack, named, told, rw (on_text, parsed, named, u) refl)
