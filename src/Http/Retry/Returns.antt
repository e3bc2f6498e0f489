-- ===== src/Http/Retry/Returns.antt =====
-- What the retrying requests of src/http.rs and src/client.rs promise: they return, they ask for no
-- more than their limits, and what they return comes from a response.
use mathlib.Core.Option
use exchange_apiws.Prelude.{
  ℕ, ◌+◌, ◌≤◌, ◌<◌, true, Option, none, some, List, [], ◌∷◌, ◌++◌, ◌≡◌, ◌≢◌, refl, ap, ◌∙◌, ◌⊎◌,
  inl, inr, arith, All, All-imp, length,
}
use exchange_apiws.Prelude.Text.{Text, text, same}
use exchange_apiws.Error.{ExchangeError, http, api, retriable, classify}
use exchange_apiws.Http.Retry.{
  Response, Reply, received, unreachable, Wait, Attempts, Outcome, pending, ok, err, leave, again,
  start, while_attempts, on_unreachable, on_rate_limit, send_body, send_with_retry, accept,
  get_body, get, Envelope, execute_body, execute_with_retries, refusal,
}
use exchange_apiws.Http.Retry.Loop.{
  budget, while_attempts-waits, while_attempts-returns, while_attempts-errors, while_attempts-ok,
}

pub Sum-cases : {B C : Type 0} → (x : B ⊎ C) → ((b : B) × (x ≡ inl b)) ⊎ ((c : C) × (x ≡ inr c))
Sum-cases (inl b) = inl (b, refl)
Sum-cases (inr c) = inr (c, refl)

on_unreachable-spends :
    {A : Type 0}
    → (retries : ℕ) (s : Attempts) (e : Text) (w : Wait) (t : Attempts) → s.attempt < retries
    → on_unreachable {A = A} retries s e ≡ again w t
    → (t.attempt < retries) × (budget retries t < budget retries s)
unfolding on_unreachable
on_unreachable-spends retries s e w t h f = ground arith

on_rate_limit-spends :
    {A : Type 0}
    → (retries : ℕ) (label : Text) (wait : Wait) (s : Attempts) (w : Wait) (t : Attempts)
    → s.attempt < retries
    → on_rate_limit {A = A} label wait s ≡ again w t
    → (t.attempt < retries) × (budget retries t < budget retries s)
unfolding on_rate_limit
on_rate_limit-spends retries label wait s w t h f = ground arith

send_body-spends :
    (label : Text) (s : Attempts) (r : Reply) (w : Wait) (t : Attempts)
    → s.attempt < 3
    → send_body label s r ≡ again w t
    → (t.attempt < 3) × (budget 3 t < budget 3 s)
unfolding send_body
send_body-spends label s r w t h f = ground arith

-- A request that did not get through, or a response that limits the rate.
abbrev pub IsTransient : Reply → Type 0
IsTransient (unreachable e) = Unit
IsTransient (received r) = r.status ≡ 429

send_body-again :
    (label : Text) (r : Reply)
    → (s : Attempts) × (t : Attempts) × (w : Wait) × (send_body label s r ≡ again w t)
    → IsTransient r
unfolding send_body
send_body-again label (unreachable e) h = tt
send_body-again label (received r) (s, t, w, h) = ground arith

-- Eight replies are enough for `send_with_retry` to return, and it sleeps seven times at most.
pub send_with_retry-returns :
    (label : Text) (replies : List Reply)
    → 8 ≤ length replies
    → ((send_with_retry label replies).1 ≢ pending) × (length (send_with_retry label replies).0 ≤ 7)
unfolding send_with_retry
send_with_retry-returns label replies h = (
  while_attempts-returns label 3 (send_body label) (send_body-spends label) (λ s r. never s r) none
      start replies (omega arith) (omega arith),
  while_attempts-waits label 3 (send_body label) (send_body-spends label) none start replies
      (omega arith),
)
  where
    never : (s : Attempts) (r : Reply) → send_body label s r ≢ leave pending
    never s (unreachable e) = λ f. ground arith
    never s (received r) = λ f. ground arith

pub send_with_retry-waits :
    (label : Text) (replies : List Reply) → length (send_with_retry label replies).0 ≤ 7
unfolding send_with_retry
send_with_retry-waits label replies =
    while_attempts-waits label 3 (send_body label) (send_body-spends label) none start replies
      (omega arith)

-- The response that `send_with_retry` returns is the first that does not limit the rate: each reply
-- before it was a request that failed or a status 429, and the loop slept once after each.
pub send_with_retry-first :
    (label : Text) (replies : List Reply) (r : Response)
    → (send_with_retry label replies).1 ≡ ok r
    → (r.status ≢ 429)
      × ((before : List Reply) × (after : List Reply) × (replies ≡ before ++ received r ∷ after)
          × All IsTransient before
          × (length before ≡ length (send_with_retry label replies).0))
unfolding send_with_retry send_body
send_with_retry-first label replies r e =
    let (before, q, after, t, split, gives, size, all) =
      while_attempts-ok label 3 (send_body label) (send_body-spends label) start replies r
        (omega arith) e in
    let (found, limit) = answered q t gives in
    (
      limit,
      (
        before,
        after,
        split ∙ ap (λ q. before ++ q ∷ after) found,
        All-imp (λ q h. send_body-again label q h) before all,
        size,
      ),
    )
  where
    answered :
        (q : Reply) (t : Attempts)
        → send_body label t q ≡ leave (ok r)
        → (q ≡ received r) × (r.status ≢ 429)
    answered (unreachable x) t f = absurd (ground arith)
    answered (received x) t f = (ground arith, ground arith)

-- Every error of `send_with_retry` is one that the triage of src/error.rs calls safe to retry, so the
-- error after the loop is never the one for a loop that made no request.
pub send_with_retry-errors :
    (label : Text) (replies : List Reply) (e : ExchangeError)
    → (send_with_retry label replies).1 ≡ err e
    → classify e ≡ retriable
unfolding send_with_retry send_body classify
send_with_retry-errors label replies e =
    while_attempts-errors label 3 (send_body label) (send_body-spends label)
      (λ e. classify e ≡ retriable) fails start replies e (omega arith)
  where
    fails :
        (s : Attempts) (r : Reply) (e : ExchangeError)
        → send_body label s r ≡ leave (err e)
        → classify e ≡ retriable
    fails s (unreachable x) e f = let same : e ≡ http x = ground arith in rw same refl
    fails s (received x) e f =
        let same : e ≡ api (text "429") (label ++ text " was rate-limited 5 times; giving up") =
          ground arith in
        rw same refl

module _ {A : Type 0} (decode : Response → Text ⊎ A) where
  -- What `get` makes of an outcome of the loop.
  abbrev pub accepted : Outcome Response → Outcome A
  accepted pending = pending
  accepted (ok r) = accept decode r
  accepted (err e) = err e

  get-loop :
      (path : Text) (s : Attempts) (replies : List Reply)
      → (while_attempts (text "GET " ++ path) 3 none (get_body decode path) s replies).1
        ≡ accepted
            (while_attempts
              (text "GET " ++ path)
              3
              none
              (send_body (text "GET " ++ path))
              s
              replies).1
  unfolding while_attempts get_body send_body
  get-loop path s [] = ground arith
  get-loop path s (unreachable e ∷ replies) = ground (
    arith,
    get-loop path (record s { attempt = s.attempt + 1; last_err = some (http e) }) replies,
  )
  get-loop path s (received r ∷ replies) = ground (
    arith,
    get-loop path
        (record s {
          rate_limit_hits = s.rate_limit_hits + 1;
          last_err = some (api (text "429") (text "rate limited"));
        })
        replies,
  )

  -- The public `get` returns what the signed clients' `send_with_retry` would return for the same
  -- replies, decoded if its status is a success and turned into an error if not: the two loops, which
  -- the source writes out apart, agree.
  pub get-send_with_retry :
      (path : Text) (replies : List Reply)
      → (get decode path replies).1 ≡ accepted (send_with_retry (text "GET " ++ path) replies).1
  unfolding get send_with_retry
  get-send_with_retry path replies = get-loop path start replies

module _ {V A : Type 0} (null : V) (envelope : Response → Text ⊎ Envelope V)
    (from_value : V → Text ⊎ A) where
  execute_body-spends :
      (label : Text) (retries : ℕ) (s : Attempts) (r : Reply) (w : Wait) (t : Attempts)
      → s.attempt < retries
      → execute_body null envelope from_value label retries s r ≡ again w t
      → (t.attempt < retries) × (budget retries t < budget retries s)
  unfolding execute_body
  execute_body-spends label retries s (unreachable e) w t h f = ground arith
  execute_body-spends label retries s (received r) w t h f = ground arith

  -- With a positive number of retries, `execute_with_retries` returns after five replies more than
  -- that at the latest, whether or not the request can be built, and sleeps once less at most.
  pub execute_with_retries-returns :
      (headers : Option ExchangeError) (verb endpoint : Text) (retries : ℕ) (replies : List Reply)
      → 0 < retries
      → retries + 5 ≤ length replies
      → ((execute_with_retries null envelope from_value headers verb endpoint retries replies).1
          ≢ pending)
        × (length
              (execute_with_retries null envelope from_value headers verb endpoint retries
                replies).0
            < retries + 5)
  unfolding execute_with_retries
  execute_with_retries-returns headers verb endpoint retries replies pos h =
      let label = verb ++ 32 ∷ endpoint in
      let body = execute_body null envelope from_value label retries in
      (
        while_attempts-returns (verb ++ 32 ∷ endpoint) retries body
            (execute_body-spends label retries) (λ s r. never label s r) (refusal headers verb)
            start replies (omega arith) (omega arith),
        omega (
          arith,
          while_attempts-waits (verb ++ 32 ∷ endpoint) retries body
              (execute_body-spends label retries) (refusal headers verb) start replies
              (omega arith),
        ),
      )
    where
      never :
          (label : Text) (s : Attempts) (r : Reply)
          → execute_body null envelope from_value label retries s r ≢ leave pending
      never label s (unreachable e) = λ f. ground arith
      never label s (received r) = λ f. ground arith

  -- A result of `execute_with_retries`, for a request that can be built, is decoded from the payload
  -- of one of the responses: its status is not 429, and its envelope holds the code of success.
  pub execute_with_retries-ok :
      (verb endpoint : Text) (retries : ℕ) (replies : List Reply) (a : A)
      → 0 < retries
      → refusal none verb ≡ none
      → (execute_with_retries null envelope from_value none verb endpoint retries replies).1 ≡ ok a
      → (before : List Reply) × (r : Response) × (after : List Reply) × (raw : Envelope V)
        × (replies ≡ before ++ received r ∷ after)
        × (r.status ≢ 429)
        × (envelope r ≡ inr raw)
        × (same (Option.get_or raw.code (text "unknown")) (text "200000") ≡ true)
        × (from_value (Option.get_or raw.payload null) ≡ inr a)
  unfolding execute_with_retries execute_body
  execute_with_retries-ok verb endpoint retries replies a pos built e =
      let label = verb ++ 32 ∷ endpoint in
      let body = execute_body null envelope from_value label retries in
      let (before, q, after, t, split, gives, _, _) =
        while_attempts-ok (verb ++ 32 ∷ endpoint) retries body (execute_body-spends label retries)
          start replies a (omega arith) (rw built at e) in
      let (r, raw, found, limit, opened, code, value) = answered label q t gives in
      (
        before,
        r,
        after,
        raw,
        split ∙ ap (λ q. before ++ q ∷ after) found,
        limit,
        opened,
        code,
        value,
      )
    where
      answered :
          (label : Text) (q : Reply) (t : Attempts)
          → execute_body null envelope from_value label retries t q ≡ leave (ok a)
          → (r : Response) × (raw : Envelope V) × (q ≡ received r)
            × (r.status ≢ 429)
            × (envelope r ≡ inr raw)
            × (same (Option.get_or raw.code (text "unknown")) (text "200000") ≡ true)
            × (from_value (Option.get_or raw.payload null) ≡ inr a)
      answered label (unreachable x) t f = absurd (ground arith)
      answered label (received x) t f = elim (Sum-cases (envelope x)) [
        | inl (e, g) ↦ absurd (ground arith)
        | inr (raw, g) ↦ (x, raw, refl, ground arith, g, ground arith, ground arith)
      ]
