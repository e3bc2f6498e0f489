-- ===== src/Market/Kept.antt =====
-- What fetch_klines_extended of src/rest/market.rs returns of the candles that it gathers.
use exchange_apiws.Prelude.{
  ℕ, zero, suc, ◌+◌, min, some, List, [], ◌∷◌, ◌++◌, ◌≡◌, refl, ◌∙◌, ap, sym, arith, ◌⊎◌, inl, inr,
  All, Bool-cases, leb, length, length-take, take, drop, append-nil, append_assoc,
}
use exchange_apiws.Prelude.Int.{ℤ, leb_ℤ, ◌≤ℤ◌}
use exchange_apiws.Prelude.Options.{filter_map}
use exchange_apiws.Error.{ExchangeError}
use exchange_apiws.Types.Candle.{Candle}
use exchange_apiws.Market.{pages, insert, sort_by_time, trimmed, to_option}

module _ {F : Type 0} where
  -- By time, the oldest first.
  abbrev pub Sorted : List (Candle F) → Type 0
  Sorted [] = Unit
  Sorted (c ∷ cs) = All (λ d. c.time ≤ℤ d.time) cs × Sorted cs

  All-insert :
      (a : Candle F) (c : Candle F) (cs : List (Candle F))
      → a.time ≤ℤ c.time
      → All (λ d. a.time ≤ℤ d.time) cs
      → All (λ d. a.time ≤ℤ d.time) (insert c cs)
  unfolding insert
  All-insert a c [] h k = (h, tt)
  All-insert a c (d ∷ cs) h k = ground (arith, All-insert a c cs)

  All-later :
      (c d : Candle F) (cs : List (Candle F))
      → c.time ≤ℤ d.time
      → All (λ e. d.time ≤ℤ e.time) cs
      → All (λ e. c.time ≤ℤ e.time) cs
  All-later c d [] h k = tt
  All-later c d (e ∷ cs) h (le, k) = (omega arith, All-later c d cs h k)

  insert-Sorted : (c : Candle F) (cs : List (Candle F)) → Sorted cs → Sorted (insert c cs)
  unfolding insert
  insert-Sorted c [] s = (tt, tt)
  insert-Sorted c (d ∷ cs) (le, s) = elim (Bool-cases (leb_ℤ c.time d.time)) [
    | inl first ↦
        let below : c.time ≤ℤ d.time = ground arith in
        rw first ((below, All-later c d cs below le), (le, s))
    | inr later ↦
        let above : d.time ≤ℤ c.time = ground arith in
        rw later (All-insert d c cs above le, insert-Sorted c cs s)
  ]

  sort_by_time-Sorted : (cs : List (Candle F)) → Sorted (sort_by_time cs)
  unfolding sort_by_time
  sort_by_time-Sorted [] = tt
  sort_by_time-Sorted (c ∷ cs) = insert-Sorted c (sort_by_time cs) (sort_by_time-Sorted cs)

  length-insert : (c : Candle F) (cs : List (Candle F)) → length (insert c cs) ≡ length cs + 1
  unfolding insert
  length-insert c [] = omega arith
  length-insert c (d ∷ cs) = ground (arith, length-insert c cs)

  length-sort_by_time : (cs : List (Candle F)) → length (sort_by_time cs) ≡ length cs
  unfolding sort_by_time
  length-sort_by_time [] = refl
  length-sort_by_time (c ∷ cs) =
      omega (arith, length-insert c (sort_by_time cs), length-sort_by_time cs)

  take-append-drop : (n : ℕ) (cs : List (Candle F)) → cs ≡ take n cs ++ drop n cs
  take-append-drop zero cs = refl
  take-append-drop (suc n) [] = refl
  take-append-drop (suc n) (c ∷ cs) = ap (◌∷◌ c) (take-append-drop n cs)

module _ {R F : Type 0} (read : R → ExchangeError ⊎ Candle F) where
  -- The candles of a list of replies, page by page.
  abbrev pub candles : List (ExchangeError ⊎ List R) → List (Candle F)
  candles [] = []
  candles (inl e ∷ replies) = candles replies
  candles (inr raw ∷ replies) =
      sort_by_time (filter_map (λ r. to_option (read r)) raw) ++ candles replies

module _ {R F : Type 0} (read : R → ExchangeError ⊎ Candle F) (total page_size : ℕ)
    (gran_i : ℤ) where
  pages-trimmed :
      (replies : List (ExchangeError ⊎ List R)) (end : ℤ) (all cs : List (Candle F))
      → (pages read total page_size gran_i replies end all).1 ≡ some (inr cs)
      → (n : ℕ) × (cs ≡ trimmed total (all ++ candles read (take n replies)))
  unfolding pages
  pages-trimmed [] end all cs h = (0, rw (append-nil all) (ground arith))
  pages-trimmed (inl e ∷ replies) end all cs h = (0, rw (append-nil all) (ground arith))
  pages-trimmed (inr [] ∷ replies) end all cs h = elim (Bool-cases (leb total (length all))) [
    | inl done ↦ (0, rw (append-nil all) (sym (cc (rw done at h))))
    | inr more ↦ (1, rw (append-nil (sort_by_time {F = F} [])) (sym (cc (rw more at h))))
  ]
  pages-trimmed (inr (r ∷ raw) ∷ replies) end all cs h =
      elim (Bool-cases (leb total (length all))) [
        | inl done ↦ (0, rw (append-nil all) (sym (cc (rw done at h))))
        | inr more ↦
            let (n, e) = pages-trimmed replies _ _ cs (rw more at h) in
            (suc n, e ∙ ap (trimmed total) (append_assoc all _ _))
      ]

  -- If the loop ends well, it returns of the candles gathered from some number of pages, put in order
  -- of time, the first `total`: those that it leaves out are the newest, none of which is older than
  -- a candle returned.
  pub pages-oldest :
      (replies : List (ExchangeError ⊎ List R)) (end : ℤ) (cs : List (Candle F))
      → (pages read total page_size gran_i replies end []).1 ≡ some (inr cs)
      → (n : ℕ) × (rest : List (Candle F)) × (sort_by_time (candles read (take n replies))
          ≡ cs ++ rest)
        × (length cs ≡ min total (length (candles read (take n replies))))
        × Sorted (cs ++ rest)
  unfolding trimmed
  pages-oldest replies end cs h =
      let (n, e) = pages-trimmed replies end [] cs h in
      let gathered = candles read (take n replies) in
      let split = take-append-drop total (sort_by_time gathered) in
      (
        n,
        drop total (sort_by_time gathered),
        rw e split,
        rw (e, length-take total (sort_by_time gathered), length-sort_by_time gathered) refl,
        rw (e, ← split) (sort_by_time-Sorted gathered),
      )
