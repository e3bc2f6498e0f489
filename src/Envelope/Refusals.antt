-- ===== src/Envelope/Refusals.antt =====
-- What the triage of src/error.rs says of the errors that Kraken answers with (src/kraken/rest.rs).
use exchange_apiws.Prelude.{
  true, false, ◌&&◌, List, [], ◌∷◌, ◌≡◌, refl, arith, ◌⊎◌, inl, inr, leb, ltb, subst,
}
use exchange_apiws.Prelude.Text.{Text, text}
use exchange_apiws.Prelude.Json.{Json}
use exchange_apiws.Error.{
  ExchangeError, json, api, fatal, classify, is_retriable, is_retriable_code, is_rate_limited,
  is_clock_skew, is_auth,
}
use exchange_apiws.Http.Retry.Returns.{Sum-cases}
use exchange_apiws.Prelude.Options.{unwrap_or}
use exchange_apiws.Http.Retry.{Response, err, accept}
use exchange_apiws.Envelope.{unwrap_kraken_envelope, decode_result, errors_of, joined}
use exchange_apiws.Clients.{read_response}

-- An error that the triage takes for no rate limit, for no failure of authentication, and for fatal.
abbrev pub IsFinal : ExchangeError → Type 0
IsFinal e = (classify e ≡ fatal) × (is_rate_limited e ≡ false) × (is_auth e ≡ false)

kraken_error-IsFinal : (message : Text) → IsFinal (api (text "kraken_error") message)
unfolding classify is_retriable is_retriable_code is_rate_limited is_clock_skew is_auth
kraken_error-IsFinal message = (refl, refl, refl)

json-IsFinal : (e : Text) → IsFinal (json e)
unfolding classify is_retriable is_rate_limited is_auth
json-IsFinal e = (refl, refl, refl)

List-cases : (xs : List Text) → (xs ≡ []) ⊎ ((y : Text) × (ys : List Text) × (xs ≡ y ∷ ys))
List-cases [] = inl refl
List-cases (y ∷ ys) = inr (y, ys, refl)

module _ {V A : Type 0} ⦃j : Json V⦄ (null : V) (from_value : V → Text ⊎ A) where
  -- What a reply of Kraken is unwrapped to.
  unwrap_kraken_envelope-cases :
      (raw : V)
      → ((m : Text) × (unwrap_kraken_envelope null from_value raw
            ≡ inl (api (text "kraken_error") m)))
        ⊎ (((m : Text) × (unwrap_kraken_envelope null from_value raw ≡ inl (json m)))
            ⊎ ((a : A) × (unwrap_kraken_envelope null from_value raw ≡ inr a)))
  unfolding unwrap_kraken_envelope
  unwrap_kraken_envelope-cases raw = elim (List-cases (errors_of null from_value raw)) [
    | inl none_of ↦ elim (Sum-cases (from_value (unwrap_or (j.get raw (text "result")) null))) [
      | inl (m, bad) ↦ inr (inl (m, rw (unwrap_kraken_envelope, none_of, decode_result, bad) refl))
      | inr (a, good) ↦
          inr (inr (a, rw (unwrap_kraken_envelope, none_of, decode_result, good) refl))
    ]
    | inr (m, ms, some_of) ↦ inl (joined (m ∷ ms), rw (unwrap_kraken_envelope, some_of) refl)
  ]

  -- Whatever Kraken answers with a status of success, an error that comes of it is fatal to the triage,
  -- and neither a rate limit nor a failure of authentication: a caller of the triage cannot tell
  -- Kraken's rate limits or its refused keys from other refusals. The body must be JSON.
  pub read_response-IsFinal :
      (decode : Response → Text ⊎ V) (r : Response) (raw : V) (e : ExchangeError)
      → (leb 200 r.status && ltb r.status 300) ≡ true
      → decode r ≡ inr raw
      → read_response decode (unwrap_kraken_envelope null from_value) r ≡ err e
      → IsFinal e
  unfolding read_response accept
  read_response-IsFinal decode r raw e ok read h = elim (unwrap_kraken_envelope-cases raw) [
    | inl (m, eq) ↦ subst IsFinal (ground arith) (kraken_error-IsFinal m)
    | inr (inl (m, eq)) ↦ subst IsFinal (ground arith) (json-IsFinal m)
    | inr (inr (a, eq)) ↦ absurd (ground arith)
  ]
