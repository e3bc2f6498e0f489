-- ===== src/Clients/Kraken/Attempts.antt =====
-- `post` of src/kraken/private.rs over all the attempts of one call.
use exchange_apiws.Prelude.{
  ℕ, take, ◌+◌, ◌^◌, ◌≤◌, ◌<◌, some, List, [], ◌∷◌, ◌++◌, ◌≡◌, refl, map, ap, fun_ext, ◌⊎◌, inl,
  inr, arith, All, All-imp, length,
}
use exchange_apiws.Prelude.Text.{Text, text, to_string}
use exchange_apiws.Prelude.Json.{Json}
use exchange_apiws.Error.{auth}
use exchange_apiws.Http.Retry.{Response, Reply, err, start, send_with_retry}
use exchange_apiws.Http.Retry.Returns.{Sum-cases, send_with_retry-waits}
use exchange_apiws.Signing.{form_encode, sign_kraken_request}
use exchange_apiws.Envelope.{unwrap_kraken_envelope}
use exchange_apiws.Nonce.Unique.{Increasing}
use exchange_apiws.Clients.{Moment, take_nonce, send_building, finish, read_outcome}
use exchange_apiws.Clients.Fresh.{
  ReadsMoment, size, total, replies_of, numbered, take_nonce_bounds, send_building-tickets, tickets,
  tickets-Increasing, All-take, take-Increasing, moments_of, send_building-while_attempts,
  ReadsMoment-le,
}
use exchange_apiws.Clients.Kraken.{Crypto, Credentials, Request, sign_body, build, post}

-- The body under a nonce: the nonce, then the parameters.
abbrev pub body_of : List (Text × Text) → ℕ → Text
body_of params nonce = form_encode ((text "nonce", to_string nonce) ∷ params)

module _ (crypto : Crypto) (credentials : Credentials) (path : Text)
    (params : List (Text × Text)) where
  -- The request under a nonce, by the decoded secret.
  abbrev pub request_of : Text → ℕ → Request
  request_of key nonce = record {
    key = credentials.api_key;
    sign =
        crypto.hmac_sha512_b64 key
          (path ++ crypto.sha256 (to_string nonce ++ body_of params nonce));
    body = body_of params nonce;
  }

  build-numbered :
      (key : Text)
      → crypto.decode_b64 credentials.api_secret_b64 ≡ inr key
      → build crypto credentials path params ≡ numbered take_nonce (request_of key)
  unfolding build sign_kraken_request
  build-numbered key e = fun_ext (λ c. fun_ext (λ m. rw e refl))

  module _ {V A : Type 0} ⦃j : Json V⦄ (null : V) (decode : Response → Text ⊎ V)
      (from_value : V → Text ⊎ A) where
    post_undecoded :
        (c : ℕ) (first : Moment) (attempts : List (Moment × Reply)) (e : Text)
        → crypto.decode_b64 credentials.api_secret_b64 ≡ inl e
        → post crypto credentials path params null decode from_value c first attempts ≡ record {
          requests = [];
          waits = [];
          outcome = some (err (auth (text "Kraken secret is not valid base64: " ++ e)));
          state = (take_nonce c first).0;
        }
    unfolding post sign_kraken_request
    post_undecoded c first attempts e bad = rw (bad, post) refl

    post_decoded :
        (c : ℕ) (first : Moment) (attempts : List (Moment × Reply)) (key : Text)
        → crypto.decode_b64 credentials.api_secret_b64 ≡ inr key
        → post crypto credentials path params null decode from_value c first attempts
          ≡ finish decode (unwrap_kraken_envelope null from_value) (
              send_building
                (numbered take_nonce (request_of key))
                (text "Kraken POST " ++ path)
                start
                (take_nonce c first).0
                attempts)
    unfolding post sign_body sign_kraken_request
    post_decoded c first attempts key good =
        rw (good, post)
          (ap
            (λ b.
              finish decode (unwrap_kraken_envelope null from_value) (
                send_building b (text "Kraken POST " ++ path) start (take_nonce c first).0
                  attempts))
            (build-numbered key good))

    -- With a secret that can be decoded, every attempt of a call sends the parameters under a nonce of
    -- its own, first in the body and signed with it. The nonces increase from attempt to attempt, and
    -- each is greater than all that the counter handed out before the call, whatever other callers do
    -- meanwhile, while the clock's readings and the number of operations stay below 2 ^ 63 together.
    pub post-Increasing :
        (key : Text) (c limit : ℕ) (first : Moment) (attempts : List (Moment × Reply))
        → crypto.decode_b64 credentials.api_secret_b64 ≡ inr key
        → c ≤ limit
        → ReadsMoment limit first
        → All (ReadsMoment limit) (moments_of attempts)
        → limit + size first + total (moments_of attempts) < 2 ^ 63
        → (ns : List ℕ) × ((post crypto credentials path params null decode from_value c first
              attempts).requests
            ≡ map (request_of key) ns)
          × All (λ n. c < n) ns
          × Increasing ns
    unfolding finish
    post-Increasing key c limit first attempts e h rf rs b =
        let (low, _, next, high) = take_nonce_bounds c limit first h rf (omega arith) in
        let higher = limit + size first in
        let ms = moments_of attempts in
        let d = (take_nonce c first).0 in
        let (k, eq) =
          send_building-tickets take_nonce (request_of key) (text "Kraken POST " ++ path) start d
            attempts in
        let (above, _, up) =
          tickets-Increasing d higher ms high
            (All-imp (λ p x. ReadsMoment-le limit higher p (omega arith) x) ms rs) (omega arith) in
        let ns = take k (tickets take_nonce d ms) in
        rw (post_decoded c first attempts key e) (
          ns,
          eq,
          All-take (λ n. c < n) k (tickets take_nonce d ms)
              (All-imp (λ n x. omega arith) (tickets take_nonce d ms) above),
          take-Increasing k (tickets take_nonce d ms) up,
        )

    -- A call never panics. With a secret that cannot be decoded it fails at once and sends nothing;
    -- else it returns what `send_with_retry` would for the same replies, its status and envelope read,
    -- with the same sleeps.
    pub post-send_with_retry :
        (c : ℕ) (first : Moment) (attempts : List (Moment × Reply))
        → ((e : Text) × (crypto.decode_b64 credentials.api_secret_b64 ≡ inl e)
            × (post crypto credentials path params null decode from_value c first attempts
                ≡ record {
                  requests = [];
                  waits = [];
                  outcome = some (err (auth (text "Kraken secret is not valid base64: " ++ e)));
                  state = (take_nonce c first).0;
                }))
          ⊎ ((key : Text) × (crypto.decode_b64 credentials.api_secret_b64 ≡ inr key)
              × ((post crypto credentials path params null decode from_value c first
                    attempts).outcome
                  ≡ some (
                      read_outcome decode
                        (unwrap_kraken_envelope null from_value)
                        (send_with_retry (text "Kraken POST " ++ path) (replies_of attempts)).1))
              × ((post crypto credentials path params null decode from_value c first attempts).waits
                  ≡ (send_with_retry (text "Kraken POST " ++ path) (replies_of attempts)).0)
              × (length
                    (post crypto credentials path params null decode from_value c first
                      attempts).requests
                  ≤ 8))
    unfolding finish send_with_retry
    post-send_with_retry c first attempts =
        elim (Sum-cases (crypto.decode_b64 credentials.api_secret_b64)) [
          | inl (e, bad) ↦ inl (e, bad, post_undecoded c first attempts e bad)
          | inr (key, good) ↦
              let label = text "Kraken POST " ++ path in
              let (same, sleeps, count) =
                send_building-while_attempts take_nonce (request_of key) label start
                  (take_nonce c first).0 attempts in
              let few : length
                    (send_building (numbered take_nonce (request_of key)) label start
                      (take_nonce c first).0 attempts).requests
                  ≤ 8 =
                omega
                  (arith, ap length sleeps, send_with_retry-waits label (replies_of attempts)) in
              inr (
                key,
                good,
                rw (post_decoded c first attempts key good) (rw same refl),
                rw (post_decoded c first attempts key good) sleeps,
                rw (post_decoded c first attempts key good) few,
              )
        ]
