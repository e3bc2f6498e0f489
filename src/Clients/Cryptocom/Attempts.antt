-- ===== src/Clients/Cryptocom/Attempts.antt =====
-- `post` of src/cryptocom/private.rs over all the attempts of one call.
use exchange_apiws.Prelude.{
  ℕ, take, ◌+◌, ◌^◌, ◌≤◌, ◌<◌, List, [], ◌∷◌, ◌++◌, ◌≡◌, refl, map, ap, ap₂, sym, fun_ext, ◌∙◌, ◌⊎◌,
  inr, arith, All, All-imp,
}
use exchange_apiws.Prelude.Text.{Text, text}
use exchange_apiws.Prelude.Int.{ℤ, pos}
use exchange_apiws.Prelude.Json.{Json}
use exchange_apiws.Http.Retry.{Response, Reply, start}
use exchange_apiws.Nonce.{to_i64}
use exchange_apiws.Nonce.Unique.{Increasing}
use exchange_apiws.Signing.Params.{Param, sign_payload}
use exchange_apiws.Envelope.{unwrap_cryptocom_envelope}
use exchange_apiws.Clients.{Moment, take_nonce, send_building, finish}
use exchange_apiws.Clients.Fresh.{
  ReadsMoment, ReadsMoment-le, size, total, numbered, tickets, tickets-Increasing,
  take_nonce_bounds, send_building-tickets, moments_of, All-take, take-Increasing, map-take,
}
use exchange_apiws.Clients.Cryptocom.{
  Credentials, Counters, Signing, Body, take_numbers, sign_body, build, post,
}

-- The moments of the nonces.
abbrev pub nonce_moments : List (Signing × Reply) → List Moment
nonce_moments attempts = map (λ s. s.moment) (moments_of attempts)

-- The nonces that go with the ids are those that the counter gives.
tickets-nonces :
    (c : Counters) (limit : ℕ) (ms : List Signing)
    → c.nonce_state ≤ limit
    → All (ReadsMoment limit) (map (λ s. s.moment) ms)
    → limit + total (map (λ s. s.moment) ms) < 2 ^ 63
    → map (λ t. t.1) (tickets take_numbers c ms)
      ≡ map pos (tickets take_nonce c.nonce_state (map (λ s. s.moment) ms))
unfolding take_numbers to_i64
tickets-nonces c limit [] h rs b = refl
tickets-nonces c limit (m ∷ ms) h (rm, rs) b =
    let (low, _, next, high) = take_nonce_bounds c.nonce_state limit m.moment h rm (omega arith) in
    let higher = limit + size m.moment in
    let same : to_i64 (take_nonce c.nonce_state m.moment).1
        ≡ (take_nonce c.nonce_state m.moment).1 =
      ground arith in
    ap₂ (λ n l. pos n ∷ l) same
      (tickets-nonces (take_numbers c m).0 higher ms high
        (All-imp (λ p k. ReadsMoment-le limit higher p (omega arith) k) (map (λ s. s.moment) ms) rs)
        (omega arith))

nonce_state-take_numbers :
    (c : Counters) (m : Signing)
    → (take_numbers c m).0.nonce_state ≡ (take_nonce c.nonce_state m.moment).0
unfolding take_numbers
nonce_state-take_numbers c m = refl

map_cong_all :
    {A B C : Type 0} (f : A → B) (g : B → C) (h : A → C)
    → ((a : A) → g (f a) ≡ h a)
    → (xs : List A) → map g (map f xs) ≡ map h xs
map_cong_all f g h e [] = refl
map_cong_all f g h e (x ∷ xs) = ap₂ (λ a l. a ∷ l) (e x) (map_cong_all f g h e xs)

All-map :
    {A B : Type 0} (P : B → Type 0) (f : A → B)
    → ((a : A) → P (f a))
    → (xs : List A) → All P (map f xs)
All-map P f h [] = tt
All-map P f h (x ∷ xs) = (h x, All-map P f h xs)

module _ (new_mac : Text → Text ⊎ (Text → Text)) (credentials : Credentials) (method : Text)
    (params : Param) where
  -- The body under an id and a nonce, by the hash under the secret.
  abbrev pub body_of : (Text → Text) → ℤ × ℤ → Body
  body_of mac (id, nonce) = record {
    id = id;
    method = method;
    api_key = credentials.api_key;
    params = params;
    nonce = nonce;
    sig = mac (sign_payload method id credentials.api_key params nonce);
  }

  build-numbered :
      (mac : Text → Text)
      → new_mac credentials.api_secret ≡ inr mac
      → build new_mac credentials method params ≡ numbered take_numbers (body_of mac)
  unfolding build
  build-numbered mac e = fun_ext (λ c. fun_ext (λ m. rw e refl))

  module _ {V A : Type 0} ⦃j : Json V⦄ (null : V) (decode : Response → Text ⊎ V)
      (from_value : V → Text ⊎ A) where
    post_accepted :
        (c : Counters) (first : Signing) (attempts : List (Signing × Reply)) (mac : Text → Text)
        → new_mac credentials.api_secret ≡ inr mac
        → post new_mac credentials method params null decode from_value c first attempts
          ≡ finish decode (unwrap_cryptocom_envelope null from_value) (
              send_building
                (numbered take_numbers (body_of mac))
                (text "Crypto.com POST " ++ method)
                start
                (take_numbers c first).0
                attempts)
    unfolding post sign_body
    post_accepted c first attempts mac good =
        rw (good, post)
          (ap
            (λ b. finish decode (unwrap_cryptocom_envelope null from_value) (
              send_building b (text "Crypto.com POST " ++ method) start (take_numbers c first).0
                attempts))
            (build-numbered mac good))

    -- Where the hash takes the secret, the body of every attempt is signed over its own id and nonce.
    -- The nonces increase from attempt to attempt, survive the conversion to `i64`, and are greater
    -- than all that the counter handed out before the call, whatever other callers do meanwhile, while
    -- the clock's readings and the number of operations stay below 2 ^ 63 together.
    pub post-signed :
        (mac : Text → Text) (c : Counters) (limit : ℕ) (first : Signing)
        (attempts : List (Signing × Reply))
        → new_mac credentials.api_secret ≡ inr mac
        → c.nonce_state ≤ limit
        → ReadsMoment limit first.moment
        → All (ReadsMoment limit) (nonce_moments attempts)
        → limit + size first.moment + total (nonce_moments attempts) < 2 ^ 63
        → (ns : List ℕ) × (map
              (λ r. r.nonce)
              (post new_mac credentials method params null decode from_value c first
                attempts).requests
            ≡ map pos ns)
          × All (λ n. c.nonce_state < n) ns
          × Increasing ns
          × All
              (λ r. r ≡ body_of mac (r.id, r.nonce))
              (post new_mac credentials method params null decode from_value c first
                attempts).requests
    unfolding finish
    post-signed mac c limit first attempts e h rf rs b =
        let (low, _, next, high) =
          take_nonce_bounds c.nonce_state limit first.moment h rf (omega arith) in
        let higher = limit + size first.moment in
        let ms = nonce_moments attempts in
        let d = (take_numbers c first).0 in
        let reached : d.nonce_state ≤ higher = omega (arith, nonce_state-take_numbers c first) in
        let past : c.nonce_state < d.nonce_state =
          omega (arith, nonce_state-take_numbers c first) in
        let wider = All-imp (λ p x. ReadsMoment-le limit higher p (omega arith) x) ms rs in
        let numbers = tickets take_numbers d (moments_of attempts) in
        let nonces = tickets take_nonce d.nonce_state ms in
        let (k, eq) =
          send_building-tickets take_numbers (body_of mac) (text "Crypto.com POST " ++ method) start
            d attempts in
        let (above, _, up) =
          tickets-Increasing d.nonce_state higher ms reached wider (omega arith) in
        let same : map (λ t. t.1) (take k numbers) ≡ map pos (take k nonces) =
          map-take (λ t. t.1) k numbers
          ∙ ap (take k) (tickets-nonces d higher (moments_of attempts) reached wider (omega arith))
          ∙ sym (map-take pos k nonces) in
        rw (post_accepted c first attempts mac e) (
          take k nonces,
          ap (map (λ r. r.nonce)) eq
              ∙ map_cong_all (body_of mac) (λ r. r.nonce) (λ t. t.1) (λ a. refl) (take k numbers)
              ∙ same,
          All-take (λ n. c.nonce_state < n) k nonces (All-imp (λ n x. omega arith) nonces above),
          take-Increasing k nonces up,
          rw eq (
              All-map (λ r. r ≡ body_of mac (r.id, r.nonce)) (body_of mac) (λ a. refl)
                (take k numbers)),
        )
