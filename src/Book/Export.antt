-- ===== src/Book/Export.antt =====
-- `snapshot` of src/book.rs: a book that is fed the exported snapshot holds what was exported.
use Prim.Native.Nat.Ordering.{eq}
use mathlib.Core.List.{reverse, reverse-append, map-append}
use exchange_apiws.Prelude.{
  ◌-◌, ◌^◌, ◌<◌, true, false, Option, none, some, List, [], ◌∷◌, ◌++◌, ◌≡◌, refl, sym, ◌∙◌, ap,
  arith, length, take-all, length-reverse, Option-cases, inl, inr,
}
use exchange_apiws.Prelude.Float.{Float}
use exchange_apiws.Prelude.Int.{ℤ}
use exchange_apiws.Prelude.SortedMap
use exchange_apiws.Prelude.SortedMap.Laws.{IsSorted, get-cons, IsSorted-ext}
use exchange_apiws.Book.{
  Px, px_ord, Level, Side, LocalOrderBook, new, apply_levels, levels_of, snapshot, apply,
}
use exchange_apiws.Book.Levels.{
  last_quote, quoted, IsNonzero, apply_levels-IsSorted, get-apply_levels,
}
use exchange_apiws.Book.Invariant.{IsValid}

module _ {F : Type 0} ⦃fl : Float F⦄ where
  last_quote-levels_of :
      (p : Px F) (m : Side F) → IsSorted m → last_quote p (levels_of m) ≡ SortedMap.get p m
  unfolding last_quote levels_of
  last_quote-levels_of p [] s = unfold SortedMap.get in refl
  last_quote-levels_of p ((k, v) ∷ m) s =
      rw (last_quote-levels_of p m s.1, (get-cons p k v m s.0).1)

  last_quote-append :
      (p : Px F) (xs ys : List (Level F))
      → last_quote p (xs ++ ys)
        ≡ elim (last_quote p ys) [ some q ↦ some q | none ↦ last_quote p xs ]
  unfolding last_quote
  last_quote-append p [] ys = ground arith
  last_quote-append p (l ∷ xs) ys = ground (arith, last_quote-append p xs ys)

  last_quote-snoc :
      (p : Px F) (xs : List (Level F)) (l : Level F)
      → last_quote p (xs ++ l ∷ [])
        ≡ elim (fl.total_cmp p.price l.0) [ eq ↦ some l.1 | _ ↦ last_quote p xs ]
  unfolding last_quote
  last_quote-snoc p xs l = ground (arith, last_quote-append p xs (l ∷ []))

  -- The last entry of the list first: what the book exports for its bids.
  last_quote-reverse :
      (p : Px F) (m : Side F)
      → IsSorted m
      → last_quote p (levels_of (reverse m)) ≡ SortedMap.get p m
  unfolding levels_of
  last_quote-reverse p [] s = unfold last_quote SortedMap.get in refl
  last_quote-reverse p ((k, v) ∷ m) s =
      ap (λ l. last_quote p (levels_of l)) (reverse-append ((k, v) ∷ []) m)
      ∙ ap (last_quote p) (map-append (λ e. (e.0.price, e.1)) (reverse m) ((k, v) ∷ []))
      ∙ last_quote-snoc p (levels_of (reverse m)) (k.price, v)
      ∙ ap {B = Option F} (λ r. elim (fl.total_cmp p.price k.price) [ eq ↦ some v | _ ↦ r ])
          (last_quote-reverse p m s.1)
      ∙ sym (get-cons p k v m s.0).0

  nonzero_of_get :
      (p : Px F) (m : Side F) {q : F}
      → IsNonzero m
      → SortedMap.get p m ≡ some q
      → fl.is_zero q ≡ false
  unfolding SortedMap.get
  nonzero_of_get p [] h g = cc
  nonzero_of_get p ((k, v) ∷ m) {q} h g = ground (arith, nonzero_of_get p m {q = q})

  -- Levels that quote what a side reads rebuild that side.
  rebuild :
      (m : Side F) (levels : List (Level F))
      → IsSorted m
      → IsNonzero m
      → ((p : Px F) → last_quote p levels ≡ SortedMap.get p m)
      → apply_levels [] levels ≡ m
  unfolding quoted SortedMap.get
  rebuild m levels s z h =
      IsSorted-ext (apply_levels [] levels) m (apply_levels-IsSorted levels [] tt) s λ p.
        get-apply_levels p levels [] tt ∙ elim (Option-cases (SortedMap.get p m)) [
          | inl e ↦ rw (h p, e, quoted)
          | inr (q, e) ↦ rw (h p, e, quoted, nonzero_of_get p m {q = q} z e)
        ]

  -- Feeding the exported snapshot of a valid book to a new one rebuilds it: the same levels, last
  -- id, symbol, exchange and timestamp, and synced. The book must have a symbol, and fewer levels
  -- a side than `usize::MAX`.
  pub apply-snapshot :
      (now : ℤ) (b : LocalOrderBook F)
      → IsValid b
      → length b.bids < 2 ^ 64
      → length b.asks < 2 ^ 64
      → (apply new (snapshot now b)).0 ≡ record b { synced = true }
  unfolding new apply snapshot
  apply-snapshot now b v bids asks =
      let same_bids : apply_levels [] (snapshot now b).bids ≡ b.bids =
        rw (take-all (2 ^ 64 - 1) (reverse b.bids) (omega (arith, length-reverse b.bids))) (
          rebuild b.bids (levels_of (reverse b.bids)) v.bids_sorted v.bids_nonzero
            λ p. last_quote-reverse p b.bids v.bids_sorted) in
      let same_asks : apply_levels [] (snapshot now b).asks ≡ b.asks =
        rw (take-all (2 ^ 64 - 1) b.asks (omega arith)) (
          rebuild b.asks (levels_of b.asks) v.asks_sorted v.asks_nonzero
            λ p. last_quote-levels_of p b.asks v.asks_sorted) in
      ground (arith, same_bids, same_asks)
