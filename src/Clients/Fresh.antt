-- ===== src/Clients/Fresh.antt =====
-- What every attempt of a call of src/kraken/private.rs is signed with.
use exchange_apiws.Prelude.{
  ℕ, zero, suc, take, ◌+◌, ◌^◌, ◌%◌, ◌≤◌, ◌<◌, max, Option, none, some, List, [], ◌∷◌, ◌≡◌, map,
  refl, ap, ◌⊎◌, inl, inr, arith, All, All-imp, length, ltb, Bool-cases,
}
use exchange_apiws.Prelude.Text.{Text}
use exchange_apiws.Http.Retry.{
  Reply, Wait, Attempts, Outcome, Step, leave, again, while_attempts, send_body,
}
use exchange_apiws.Nonce.{Op, fetch_max, fetch_add}
use exchange_apiws.Nonce.Unique.{Increasing, Reads}
use exchange_apiws.Clients.{Moment, after, take_nonce, send_building}

-- The clock readings of a moment are at most a limit.
abbrev pub ReadsMoment : ℕ → Moment → Type 0
ReadsMoment limit m = All (Reads limit) m.before × (m.now_ms ≤ limit) × All (Reads limit) m.between

-- The number of operations of a moment.
abbrev pub size : Moment → ℕ
size m = length m.before + length m.between + 2

abbrev pub total : List Moment → ℕ
total [] = 0
total (m ∷ ms) = size m + total ms

Reads-le : (limit higher : ℕ) (op : Op) → limit ≤ higher → Reads limit op → Reads higher op
Reads-le limit higher (fetch_max now_ms) h r = omega arith
Reads-le limit higher fetch_add h r = tt

pub ReadsMoment-le :
    (limit higher : ℕ) (m : Moment) → limit ≤ higher → ReadsMoment limit m → ReadsMoment higher m
ReadsMoment-le limit higher m h r = (
  All-imp (λ op x. Reads-le limit higher op h x) m.before r.0,
  omega arith,
  All-imp (λ op x. Reads-le limit higher op h x) m.between r.2,
)

after_bounds :
    (c limit : ℕ) (ops : List Op)
    → c ≤ limit
    → All (Reads limit) ops
    → limit + length ops < 2 ^ 63
    → (c ≤ after c ops) × (after c ops ≤ limit + length ops)
unfolding after
after_bounds c limit [] h r b = omega arith
after_bounds c limit (fetch_max now_ms ∷ ops) h (r, rs) b =
    omega (arith, after_bounds (max c now_ms) limit ops (omega arith) rs (omega arith))
after_bounds c limit (fetch_add ∷ ops) h (r, rs) b =
    let next : (c + 1) % 2 ^ 64 ≡ c + 1 = omega arith in
    rw next (
      omega (
        arith,
        after_bounds (c + 1) (limit + 1) ops (omega arith)
            (All-imp (λ op k. Reads-le limit (limit + 1) op (omega arith) k) ops rs) (omega arith),
      ))

-- A nonce is no less than the counter and the clock, and the counter goes past it.
pub take_nonce_bounds :
    (c limit : ℕ) (m : Moment)
    → c ≤ limit
    → ReadsMoment limit m
    → limit + size m < 2 ^ 63
    → (c ≤ (take_nonce c m).1)
      × (m.now_ms ≤ (take_nonce c m).1)
      × ((take_nonce c m).0 ≡ (take_nonce c m).1 + 1)
      × ((take_nonce c m).0 ≤ limit + size m)
unfolding take_nonce
take_nonce_bounds c limit m h (rb, rn, rw') b =
    let (low, high) = after_bounds c limit m.before h rb (omega arith) in
    let higher = limit + length m.before in
    let (up, top) =
      after_bounds (max (after c m.before) m.now_ms) higher m.between (omega arith)
        (All-imp (λ op k. Reads-le limit higher op (omega arith) k) m.between rw') (omega arith) in
    (omega arith, omega arith, omega arith, omega arith)

-- What a closure is given in turn, such as a nonce or the clock's reading.
abbrev pub tickets : {C M T : Type 0} → (C → M → C × T) → C → List M → List T
tickets take_ticket c [] = []
tickets take_ticket c (m ∷ ms) = let (d, t) = take_ticket c m in t ∷ tickets take_ticket d ms

pub tickets-Increasing :
    (c limit : ℕ) (ms : List Moment)
    → c ≤ limit
    → All (ReadsMoment limit) ms
    → limit + total ms < 2 ^ 63
    → All (λ n. c ≤ n) (tickets take_nonce c ms)
      × All (λ n. n < 2 ^ 63) (tickets take_nonce c ms)
      × Increasing (tickets take_nonce c ms)
tickets-Increasing c limit [] h rs b = (tt, tt, tt)
tickets-Increasing c limit (m ∷ ms) h (rm, rs) b =
    let (low, _, next, high) = take_nonce_bounds c limit m h rm (omega arith) in
    let higher = limit + size m in
    let d = (take_nonce c m).0 in
    let (above, under, up) =
      tickets-Increasing d higher ms high
        (All-imp (λ p k. ReadsMoment-le limit higher p (omega arith) k) ms rs) (omega arith) in
    (
      (low, All-imp (λ k x. omega arith) (tickets take_nonce d ms) above),
      (omega arith, under),
      (All-imp (λ k x. omega arith) (tickets take_nonce d ms) above, up),
    )

pub All-take : {A : Type 0} (P : A → Type 0) (k : ℕ) (xs : List A) → All P xs → All P (take k xs)
All-take P zero xs h = tt
All-take P (suc k) [] h = tt
All-take P (suc k) (x ∷ xs) h = (h.0, All-take P k xs h.1)

pub take-Increasing : (k : ℕ) (ns : List ℕ) → Increasing ns → Increasing (take k ns)
take-Increasing zero ns h = tt
take-Increasing (suc k) [] h = tt
take-Increasing (suc k) (n ∷ ns) (h, up) = (All-take (λ m. n < m) k ns h, take-Increasing k ns up)

pub map-take :
    {A B : Type 0} (f : A → B) (k : ℕ) (xs : List A) → map f (take k xs) ≡ take k (map f xs)
map-take f zero xs = refl
map-take f (suc k) [] = refl
map-take f (suc k) (x ∷ xs) = ap (λ l. f x ∷ l) (map-take f k xs)

Step-cases :
    {A : Type 0} (x : Step A)
    → ((o : Outcome A) × (x ≡ leave o)) ⊎ ((w : Wait) × (t : Attempts) × (x ≡ again w t))
Step-cases (leave o) = inl (o, refl)
Step-cases (again w t) = inr (w, t, refl)

-- The replies to the attempts.
abbrev pub replies_of : {M : Type 0} → List (M × Reply) → List Reply
replies_of attempts = map (λ p. p.1) attempts

abbrev pub moments_of : {M : Type 0} → List (M × Reply) → List M
moments_of attempts = map (λ p. p.0) attempts

-- A closure that builds a request from a ticket, and never panics.
abbrev pub numbered : {R C M T : Type 0} → (C → M → C × T) → (T → R) → C → M → C × Option R
numbered take_ticket f c m = let (d, t) = take_ticket c m in (d, some (f t))

module _ {R C M T : Type 0} (take_ticket : C → M → C × T) (f : T → R) (label : Text) where
  -- The requests of a loop are built from the tickets in turn, without a gap.
  pub send_building-tickets :
      (s : Attempts) (c : C) (attempts : List (M × Reply))
      → (k : ℕ) × ((send_building (numbered take_ticket f) label s c attempts).requests
          ≡ map f (take k (tickets take_ticket c (moments_of attempts))))
  unfolding send_building
  send_building-tickets s c [] = (0, refl)
  send_building-tickets s c ((m, r) ∷ rest) = elim (Bool-cases (ltb s.attempt 3)) [
    | inr stop ↦ rw stop (0, refl)
    | inl on ↦ rw on (elim (Step-cases (send_body label s r)) [
      | inl (o, e) ↦ rw e (1, refl)
      | inr (w, t, e) ↦
          let (k, eq) = send_building-tickets t (take_ticket c m).0 rest in
          rw e (suc k, ap (λ l. f (take_ticket c m).1 ∷ l) eq)
    ])
  ]

  -- The loop does what it does when the requests are left out, and sends one more than it sleeps, or
  -- as many if the attempts given are used up.
  pub send_building-while_attempts :
      (s : Attempts) (c : C) (attempts : List (M × Reply))
      → let sent = send_building (numbered take_ticket f) label s c attempts in
        let loop = while_attempts label 3 none (send_body label) s (replies_of attempts) in
        (sent.outcome ≡ some loop.1)
        × (sent.waits ≡ loop.0)
        × (length sent.requests ≤ length sent.waits + 1)
  unfolding send_building while_attempts
  send_building-while_attempts s c [] = ground arith
  send_building-while_attempts s c ((m, r) ∷ rest) = elim (Bool-cases (ltb s.attempt 3)) [
    | inr stop ↦ rw stop (refl, refl, omega arith)
    | inl on ↦ rw on (elim (Step-cases (send_body label s r)) [
      | inl (o, e) ↦ rw e (refl, refl, omega arith)
      | inr (w, t, e) ↦
          let (same, sleeps, count) = send_building-while_attempts t (take_ticket c m).0 rest in
          rw e (same, ap (λ l. w ∷ l) sleeps, omega arith)
    ])
  ]
