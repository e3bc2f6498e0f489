-- ===== src/Book/Sequence.antt =====
-- The sequence check of src/book.rs over a whole stream: a book that is still synced has missed no
-- update.
use exchange_apiws.Prelude.{
  ℕ, ◌+◌, ◌≤◌, ◌<◌, true, false, none, some, List, [], ◌∷◌, ◌++◌, ◌≡◌, refl, sym, ◌∙◌, ◌⊎◌, inl,
  inr, arith, All, ap, Option-cases, Bool-cases, leb, leb→le, ltb,
}
use mathlib.Core.Option
use mathlib.Core.Bool.{false≢true}
use exchange_apiws.Prelude.Float.{Float}
use exchange_apiws.Book.{OrderBookData, LocalOrderBook, delta_applied, stale, apply}
use exchange_apiws.Book.Invariant.{IsValid, InRange, IsDelta, run, apply-IsValid, apply-sequence}

module _ {F : Type 0} where
  -- The update ids `[first, last]` that a message covers, if it is stamped.
  unfoldable pub span : OrderBookData F → List (ℕ × ℕ)
  span msg = elim msg.last_update_id [
    | none ↦ []
    | some last ↦ (Option.get_or msg.first_update_id last, last) ∷ []
  ]

-- Some span holds the id.
abbrev pub Covered : ℕ → List (ℕ × ℕ) → Type 0
Covered n [] = ⊥
Covered n ((first, last) ∷ spans) = (first ≤ n) × (n ≤ last) ⊎ Covered n spans

module _ {F : Type 0} ⦃fl : Float F⦄ where
  -- The spans of the messages that a stream applies as deltas, in order.
  unfoldable pub applied : LocalOrderBook F → List (OrderBookData F) → List (ℕ × ℕ)
  applied b [] = []
  applied b (msg ∷ msgs) =
      let rest = applied (apply b msg).0 msgs in
      elim (apply b msg).1 [ delta_applied ↦ span msg ++ rest | _ ↦ rest ]

  -- The book reached from one whose last id was `prev` has a last id, and every id passed on the
  -- way is covered by an applied message.
  abbrev pub Contiguous : LocalOrderBook F → ℕ → List (ℕ × ℕ) → Type 0
  Contiguous c prev spans =
      (e : ℕ) × (c.last_update_id ≡ some e)
      × (prev ≤ e)
      × ((n : ℕ) → prev < n → n ≤ e → Covered n spans)

  -- What one delta does to a synced book whose last id is `prev`.
  data DeltaStep (b : LocalOrderBook F) (msg : OrderBookData F) (prev : ℕ) : Type 0 where
    skipped : apply b msg ≡ (b, stale) → DeltaStep b msg prev
    broken : (apply b msg).0.synced ≡ false → DeltaStep b msg prev
    unstamped :
        (apply b msg).1 ≡ delta_applied
        → (apply b msg).0.synced ≡ true
        → (apply b msg).0.last_update_id ≡ some prev
        → span msg ≡ []
        → DeltaStep b msg prev
    advanced :
        (first last : ℕ)
        → (apply b msg).1 ≡ delta_applied
        → (apply b msg).0.synced ≡ true
        → (apply b msg).0.last_update_id ≡ some last
        → span msg ≡ (first, last) ∷ []
        → prev < last
        → first ≤ prev + 1
        → DeltaStep b msg prev

  apply-DeltaStep :
      (b : LocalOrderBook F) (msg : OrderBookData F) (prev : ℕ)
      → IsValid b
      → InRange msg
      → IsDelta msg
      → b.synced ≡ true
      → b.last_update_id ≡ some prev
      → DeltaStep b msg prev
  unfolding apply span
  apply-DeltaStep b msg prev v r d s p = elim (Option-cases msg.last_update_id) [
    | inl e ↦ unstamped (ground arith) (ground arith) (ground arith) (ground arith)
    | inr (last, e) ↦
        let first = Option.get_or msg.first_update_id last in
        let done = apply-sequence b msg prev first last v r d s p e refl in
        elim (Bool-cases (leb last prev)) [
          | inl old ↦ skipped (rw old at done)
          | inr fresh ↦ elim (Bool-cases (ltb (prev + 1) first)) [
            | inl far ↦ broken (ap (λ c. c.0.synced) (rw (fresh, far) at done))
            | inr near ↦
                let given = rw (fresh, near) at done in
                advanced first last (ap (λ c. c.1) given) (ground arith) (ground arith)
                  (ground arith) (ground arith) (ground arith)
          ]
        ]
  ]

  -- A delta leaves a book that is not synced as it is.
  apply-unsynced :
      (b : LocalOrderBook F) (msg : OrderBookData F)
      → b.synced ≡ false
      → IsDelta msg
      → (apply b msg).0.synced ≡ false
  unfolding apply
  apply-unsynced b msg s d = ground arith

  run-stays_unsynced :
      (b : LocalOrderBook F) (msgs : List (OrderBookData F))
      → b.synced ≡ false
      → All IsDelta msgs
      → (run b msgs).0.synced ≡ false
  unfolding run
  run-stays_unsynced b [] s d = s
  run-stays_unsynced b (msg ∷ msgs) s d =
      run-stays_unsynced (apply b msg).0 msgs (apply-unsynced b msg s d.0) d.1

  -- One message in front of a contiguous run.
  Contiguous-cons :
      (c : LocalOrderBook F) (prev last first : ℕ) (spans : List (ℕ × ℕ))
      → prev < last
      → first ≤ prev + 1
      → Contiguous c last spans
      → Contiguous c prev ((first, last) ∷ spans)
  Contiguous-cons c prev last first spans h k (e, id, le, all) = (
    e,
    id,
    omega arith,
    λ n a z. elim (Bool-cases (leb n last)) [
      | inl within ↦ inl (omega arith, leb→le _ _ within)
      | inr beyond ↦ inr (all n (ground arith) z)
    ],
  )

  run-Contiguous :
      (b : LocalOrderBook F) (msgs : List (OrderBookData F)) (prev : ℕ)
      → IsValid b
      → All InRange msgs
      → All IsDelta msgs
      → b.synced ≡ true
      → b.last_update_id ≡ some prev
      → (run b msgs).0.synced ≡ true
      → Contiguous (run b msgs).0 prev (applied b msgs)
  unfolding run applied
  run-Contiguous b [] prev v r d s p k = (prev, p, omega arith, λ n a z. absurd (omega arith))
  run-Contiguous b (msg ∷ msgs) prev v r d s p k =
      let rest =
        λ (q : ℕ). run-Contiguous (apply b msg).0 msgs q (apply-IsValid b msg v r.0) r.1 d.1 in
      elim (apply-DeltaStep b msg prev v r.0 d.0 s p) [
        | skipped e ↦
            rw (ap (λ c. c.1) e, applied)
              (rest prev (ap (λ c. c.0.synced) e ∙ s) (ap (λ c. c.0.last_update_id) e ∙ p) k)
        | broken e ↦ absurd (false≢true (sym (run-stays_unsynced (apply b msg).0 msgs e d.1) ∙ k))
        | unstamped o s' p' e ↦ rw (o, e, applied) (rest prev s' p' k)
        | advanced first last o s' p' e h f ↦
            rw (o, e, applied)
              (Contiguous-cons (run (apply b msg).0 msgs).0 prev last first _ h f
                (rest last s' p' k))
      ]

  -- A synced book with last id `prev`, fed deltas only, that is still synced after them and then
  -- has last id `e`, has missed no update: every id above `prev` and up to `e` is covered by the
  -- span of a delta that it applied.
  pub run-covers :
      (b : LocalOrderBook F) (msgs : List (OrderBookData F)) (prev e n : ℕ)
      → IsValid b
      → All InRange msgs
      → All IsDelta msgs
      → b.synced ≡ true
      → b.last_update_id ≡ some prev
      → (run b msgs).0.synced ≡ true
      → (run b msgs).0.last_update_id ≡ some e
      → prev < n
      → n ≤ e
      → Covered n (applied b msgs)
  run-covers b msgs prev e n v r d s p k l a z =
      let (e', l', _, all) = run-Contiguous b msgs prev v r d s p k in
      let same : e' ≡ e = cc in all n a (omega arith)
