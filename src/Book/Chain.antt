-- ===== src/Book/Chain.antt =====
-- Streams that are numbered without a hole keep the book of src/book.rs synced.
use exchange_apiws.Prelude.{
  ℕ, ◌+◌, ◌≤◌, max, true, false, some, List, [], ◌∷◌, ◌≡◌, refl, ◌∙◌, sym, ap, arith, All,
  Bool-cases, inl, inr, leb, ltb, leb→le,
}
use mathlib.Core.Option
use exchange_apiws.Prelude.Float.{Float}
use exchange_apiws.Book.{OrderBookData, LocalOrderBook, apply}
use exchange_apiws.Book.Invariant.{InRange, IsValid, IsDelta, run, apply-IsValid, apply-sequence}

module _ {F : Type 0} ⦃fl : Float F⦄ where
  -- Each message is a delta whose first id leaves no hole after those before it. It may bring
  -- nothing new.
  abbrev pub Chained : ℕ → List (OrderBookData F) → Type 0
  Chained prev [] = Unit
  Chained prev (msg ∷ msgs) =
      IsDelta msg
      × (last : ℕ) × (msg.last_update_id ≡ some last)
      × (Option.get_or msg.first_update_id last ≤ prev + 1)
      × Chained (max prev last) msgs

  -- The highest id seen.
  abbrev pub highest : ℕ → List (OrderBookData F) → ℕ
  highest prev [] = prev
  highest prev (msg ∷ msgs) = highest (max prev (Option.get_or msg.last_update_id prev)) msgs

module _ {F : Type 0} ⦃fl : Float F⦄ where
  apply-chained :
      (b : LocalOrderBook F) (msg : OrderBookData F) (prev last : ℕ)
      → IsValid b
      → InRange msg
      → IsDelta msg
      → b.synced ≡ true
      → b.last_update_id ≡ some prev
      → msg.last_update_id ≡ some last
      → Option.get_or msg.first_update_id last ≤ prev + 1
      → ((apply b msg).0.synced ≡ true) × ((apply b msg).0.last_update_id ≡ some (max prev last))
  unfolding apply
  apply-chained b msg prev last v r d s p l f =
      let done =
        apply-sequence b msg prev (Option.get_or msg.first_update_id last) last v r d s p l refl in
      elim (Bool-cases (leb last prev)) [
        | inl old ↦ (
          ap (λ c. c.0.synced) (rw old at done) ∙ s,
          ap (λ c. c.0.last_update_id) (rw old at done)
              ∙ p
              ∙ ap some (omega (arith, leb→le _ _ old)),
        )
        | inr fresh ↦
            let near : ltb (prev + 1) (Option.get_or msg.first_update_id last) ≡ false =
              ground arith in
            let same : max prev last ≡ last = ground arith in
            let given = rw (fresh, near) at done in (ground arith, rw same (ground arith))
      ]

  -- A synced book with a last id, fed deltas that each carry an id and leave no hole in the
  -- numbering, stays synced, and its last id is then the highest seen; deltas that overlap or
  -- repeat what it has are no exception. All ids fit a u64.
  pub run-Chained :
      (b : LocalOrderBook F) (msgs : List (OrderBookData F)) (prev : ℕ)
      → IsValid b
      → All InRange msgs
      → b.synced ≡ true
      → b.last_update_id ≡ some prev
      → Chained prev msgs
      → ((run b msgs).0.synced ≡ true) × ((run b msgs).0.last_update_id ≡ some (highest prev msgs))
  unfolding run
  run-Chained b [] prev v r s p c = (s, p)
  run-Chained b (msg ∷ msgs) prev v r s p (d, last, l, f, c) =
      let (s', p') = apply-chained b msg prev last v r.0 d s p l f in
      let (synced, id) =
        run-Chained (apply b msg).0 msgs (max prev last) (apply-IsValid b msg v r.0) r.1 s' p' c in
      (synced, id ∙ ap (λ o. some (highest (max prev (Option.get_or o prev)) msgs)) (sym l))
