-- ===== src/Http/Retry/Loop.antt =====
-- The loop that the retrying requests of src/http.rs and src/client.rs share: it ends, and nothing
-- comes out of it but what its body returns.
use exchange_apiws.Prelude.{
  ℕ, ◌+◌, ◌-◌, ◌≤◌, ◌<◌, Option, none, List, [], ◌∷◌, ◌++◌, ◌≡◌, ◌≢◌, refl, ap, ◌⊎◌, inl, inr,
  arith, All, length,
}
use exchange_apiws.Prelude.Text.{Text}
use exchange_apiws.Error.{ExchangeError}
use exchange_apiws.Http.Retry.{
  Reply, Wait, Attempts, Outcome, pending, ok, err, Step, leave, again, while_attempts,
}

-- The sleeps that are left before the loop must stop.
abbrev pub budget : ℕ → Attempts → ℕ
budget retries s = (retries - 1 - s.attempt) + (5 - s.rate_limit_hits)

module _ {A : Type 0} (label : Text) (retries : ℕ) (body : Attempts → Reply → Step A)
    (spends : (s : Attempts) (r : Reply) (w : Wait) (t : Attempts)
      → s.attempt < retries
      → body s r ≡ again w t
      → (t.attempt < retries) × (budget retries t < budget retries s)) where
  Step-cases :
      (x : Step A)
      → ((o : Outcome A) × (x ≡ leave o)) ⊎ ((w : Wait) × (t : Attempts) × (x ≡ again w t))
  Step-cases (leave o) = inl (o, refl)
  Step-cases (again w t) = inr (w, t, refl)

  -- The loop sleeps no more than its budget.
  pub while_attempts-waits :
      (refused : Option ExchangeError) (s : Attempts) (replies : List Reply)
      → s.attempt < retries
      → length (while_attempts label retries refused body s replies).0 ≤ budget retries s
  unfolding while_attempts
  while_attempts-waits refused s [] h = ground arith
  while_attempts-waits refused s (r ∷ replies) h = elim (Step-cases (body s r)) [
    | inl (o, e) ↦ ground arith
    | inr (w, t, e) ↦
        let (keeps, less) = spends s r w t h e in
        ground (arith, while_attempts-waits refused t replies keeps)
  ]

  -- With a reply for each sleep and one more, the loop returns.
  pub while_attempts-returns :
      (leaves : (s : Attempts) (r : Reply) → body s r ≢ leave pending)
      (refused : Option ExchangeError) (s : Attempts) (replies : List Reply)
      → s.attempt < retries
      → budget retries s < length replies
      → (while_attempts label retries refused body s replies).1 ≢ pending
  unfolding while_attempts
  while_attempts-returns leaves refused s [] h l = absurd (omega arith)
  while_attempts-returns leaves refused s (r ∷ replies) h l = elim (Step-cases (body s r)) [
    | inl (o, e) ↦ let never = leaves s r in ground arith
    | inr (w, t, e) ↦
        let (keeps, less) = spends s r w t h e in
        ground (arith, while_attempts-returns leaves refused t replies keeps)
  ]

  -- An error of the loop is one that its body, or what goes before it, returned.
  pub while_attempts-errors :
      (P : ExchangeError → Type 0)
      (leaves : (s : Attempts) (r : Reply) (e : ExchangeError) → body s r ≡ leave (err e) → P e)
      (s : Attempts) (replies : List Reply) (e : ExchangeError)
      → s.attempt < retries
      → (while_attempts label retries none body s replies).1 ≡ err e
      → P e
  unfolding while_attempts
  while_attempts-errors P leaves s [] e h f = absurd (ground arith)
  while_attempts-errors P leaves s (r ∷ replies) e h f = elim (Step-cases (body s r)) [
    | inl (o, g) ↦ leaves s r e (ground arith)
    | inr (w, t, g) ↦
        let (keeps, less) = spends s r w t h g in
        while_attempts-errors P leaves t replies e keeps (ground arith)
  ]

  -- A result of the loop is one that its body gave for a reply, after replies for each of which the
  -- loop slept.
  pub while_attempts-ok :
      (s : Attempts) (replies : List Reply) (a : A)
      → s.attempt < retries
      → (while_attempts label retries none body s replies).1 ≡ ok a
      → (before : List Reply) × (r : Reply) × (after : List Reply) × (t : Attempts) × (replies
          ≡ before ++ r ∷ after)
        × (body t r ≡ leave (ok a))
        × (length before ≡ length (while_attempts label retries none body s replies).0)
        × All (λ q. (u : Attempts) × (v : Attempts) × (w : Wait) × (body u q ≡ again w v)) before
  unfolding while_attempts
  while_attempts-ok s [] a h f = absurd (ground arith)
  while_attempts-ok s (r ∷ replies) a h f = elim (Step-cases (body s r)) [
    | inl (o, g) ↦ ([], r, replies, s, refl, ground arith, ground arith, tt)
    | inr (w, t, g) ↦
        let (keeps, less) = spends s r w t h g in
        let (before, q, after, u, split, gives, size, all) =
          while_attempts-ok t replies a keeps (ground arith) in
        (r ∷ before, q, after, u, ap (λ l. r ∷ l) split, gives, ground arith, ((s, t, w, g), all))
  ]
