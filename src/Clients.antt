-- ===== src/Clients.antt =====
-- The signed REST clients of src/kraken/private.rs, src/cryptocom/private.rs, src/bybit/private.rs and
-- src/binance/signed_rest.rs. Each hands `send_with_retry` of src/http.rs a closure that builds and
-- signs a request anew for every attempt. What the environment does for an attempt (the clock's
-- reading, the operations of other callers) and the reply to it are the input.
pub mod Kraken
pub mod Cryptocom
pub mod Bybit
pub mod Binance
pub mod Fresh
mod Tests
use exchange_apiws.Prelude.{
  ℕ, ◌+◌, ◌%◌, ◌^◌, max, Bool, true, false, Option, none, some, List, [], ◌∷◌, ◌⊎◌, inl, inr, ltb,
  if◌then◌else◌,
}
use exchange_apiws.Prelude.Text.{Text}
use exchange_apiws.Error.{ExchangeError}
use exchange_apiws.Nonce.{Op, fetch_max, fetch_add, step}
use exchange_apiws.Http.Retry.{
  Response, Reply, Wait, Attempts, Outcome, pending, ok, err, leave, again, default_retries, start,
  or_exhausted, send_body, accept,
}

-- What a call sent, its sleeps, what it returns and the state it leaves behind. `none`: it panicked.
pub record Sent (R A C : Type 0) : Type 0 where
  pub requests : List R
  pub waits : List Wait
  pub outcome : Option (Outcome A)
  pub state : C

module _ {R C M : Type 0} (build : C → M → C × Option R) where
  -- `send_with_retry(label, build)`. The closure panics where an `expect` in it fails.
  unfoldable pub send_building : Text → Attempts → C → List (M × Reply) → Sent R Response C
  send_building label s c [] = record {
    requests = [];
    waits = [];
    outcome =
        if ltb s.attempt default_retries
        then some pending
        else some (err (or_exhausted label default_retries s.last_err));
    state = c;
  }
  send_building label s c ((m, r) ∷ rest) =
      if ltb s.attempt default_retries
      then (let (d, built) = build c m in
          elim built [
            | none ↦ record { requests = []; waits = []; outcome = none; state = d }
            | some q ↦ elim (send_body label s r) [
              | leave o ↦ record { requests = q ∷ []; waits = []; outcome = some o; state = d }
              | again w t ↦
                  let more = send_building label t d rest in
                  record more { requests = q ∷ more.requests; waits = w ∷ more.waits }
            ]
          ])
      else record {
        requests = [];
        waits = [];
        outcome = some (err (or_exhausted label default_retries s.last_err));
        state = c;
      }

-- What the environment does while a caller takes a nonce: the operations of other callers before the
-- two of this one and between them, and the clock's reading.
pub record Moment : Type 0 where
  pub before : List Op
  pub now_ms : ℕ
  pub between : List Op

-- The counter after the operations of other callers.
unfoldable pub after : ℕ → List Op → ℕ
unfolding step
after c [] = c
after c (op ∷ ops) = after (step c op).0 ops

-- `next_nonce`: the counter that it leaves, and the nonce.
unfoldable pub take_nonce : ℕ → Moment → ℕ × ℕ
unfolding after step
take_nonce c m =
    let raised = (step (after c m.before) (fetch_max m.now_ms)).0 in
    let n = after raised m.between in ((step n fetch_add).0, n)

module _ {V A : Type 0} (decode : Response → Text ⊎ V) (unwrap : V → ExchangeError ⊎ A) where
  -- What the callers of `send_with_retry` do with the response: a status that is no success is an
  -- error with the body, else the body is decoded and taken out of its envelope.
  unfoldable pub read_response : Response → Outcome A
  unfolding accept
  read_response r = elim (accept decode r) [
    | pending ↦ pending
    | err e ↦ err e
    | ok raw ↦ elim (unwrap raw) [ inl e ↦ err e | inr a ↦ ok a ]
  ]

  -- `?` after `send_with_retry`, and the reading of its response.
  unfoldable pub read_outcome : Outcome Response → Outcome A
  unfolding read_response
  read_outcome pending = pending
  read_outcome (err e) = err e
  read_outcome (ok r) = read_response r

  unfoldable pub finish : {R C : Type 0} → Sent R Response C → Sent R A C
  finish sent = record {
    requests = sent.requests;
    waits = sent.waits;
    outcome = elim sent.outcome [ none ↦ none | some o ↦ some (read_outcome o) ];
    state = sent.state;
  }
