-- ===== src/Prelude/SortedMap/Laws.antt =====
-- The laws of an ordered map: what `get` reads after an update, and that updates keep the order.
use Prim.Native.Nat.Ordering.{eq}
use exchange_apiws.Prelude.{
  List, [], ◌∷◌, Option, none, some, ◌≡◌, refl, subst, All, All-imp, arith, ◌⊎◌, inl, inr,
}
use exchange_apiws.Prelude.Order.{Ord, ◌≺◌}
use exchange_apiws.Prelude.SortedMap.{first, last, get, insert, remove}

module _ {ℓ κ} {K : Type ℓ} {V : Type κ} ⦃o : Ord K⦄ where
  -- Every key of the map lies above `k`.
  abbrev pub Above : K → List (K × V) → Type 0
  Above k m = All (λ e. k ≺ e.0) m

  abbrev pub IsSorted : List (K × V) → Type 0
  IsSorted [] = Unit
  IsSorted ((k, v) ∷ m) = Above k m × IsSorted m

  -- A function, changed at one key.
  abbrev pub update : (K → Option V) → K → Option V → K → Option V
  update f q w p = elim (o.cmp p q) [ eq ↦ w | _ ↦ f p ]

  pub Above-trans : (j k : K) (m : List (K × V)) → j ≺ k → Above k m → Above j m
  Above-trans j k m h = All-imp (λ e. o.lt_trans j k e.0 h) m

  Above-insert : (k q : K) (w : V) (m : List (K × V)) → k ≺ q → Above k m → Above k (insert q w m)
  unfolding insert
  Above-insert k q w [] h a = (h, tt)
  Above-insert k q w ((j, v) ∷ m) h a = ground (arith, Above-insert k q w m)

  Above-remove : (k q : K) (m : List (K × V)) → Above k m → Above k (remove q m)
  unfolding remove
  Above-remove k q [] a = tt
  Above-remove k q ((j, v) ∷ m) a = ground (arith, Above-remove k q m)

  pub insert-IsSorted : (q : K) (w : V) (m : List (K × V)) → IsSorted m → IsSorted (insert q w m)
  unfolding insert
  insert-IsSorted q w [] s = (tt, tt)
  insert-IsSorted q w ((k, v) ∷ m) s = ground (
    arith,
    insert-IsSorted q w m,
    Above-insert k q w m,
    o.lt_of_gt q k,
    o.eq_of_cmp q k,
    Above-trans q k m,
  )

  pub remove-IsSorted : (q : K) (m : List (K × V)) → IsSorted m → IsSorted (remove q m)
  unfolding remove
  remove-IsSorted q [] s = tt
  remove-IsSorted q ((k, v) ∷ m) s = ground (arith, remove-IsSorted q m, Above-remove k q m)

  -- Below the first key nothing is found.
  pub get-Above : (q : K) (m : List (K × V)) → Above q m → get q m ≡ none
  unfolding get
  get-Above q [] a = refl
  get-Above q ((k, v) ∷ m) a = rw (a.0, get)

  pub get-insert :
      (p q : K) (w : V) (m : List (K × V))
      → get p (insert q w m) ≡ update (λ k. get k m) q (some w) p
  unfolding get insert
  get-insert p q w [] = refl
  get-insert p q w ((k, v) ∷ m) = ground (
    arith,
    get-insert p q w m,
    o.eq_of_cmp p q,
    o.eq_of_cmp q k,
    o.eq_of_cmp p k,
    o.lt_trans p q k,
    o.lt_trans k p q,
    o.lt_of_gt q k,
    o.lt_of_gt p q,
    o.lt_of_gt p k,
    o.gt_of_lt q k,
    o.gt_of_lt p k,
    o.gt_of_lt p q,
    o.gt_of_lt k p,
    o.gt_of_lt k q,
    o.cmp_refl q,
  )

  pub get-remove :
      (p q : K) (m : List (K × V))
      → IsSorted m
      → get p (remove q m) ≡ update (λ k. get k m) q none p
  unfolding get remove
  get-remove p q [] s = ground arith
  get-remove p q ((k, v) ∷ m) s = ground (
    arith,
    get-remove p q m,
    o.eq_of_cmp p q,
    o.eq_of_cmp q k,
    o.eq_of_cmp p k,
    o.lt_trans p q k,
    o.lt_trans k p q,
    o.lt_of_gt q k,
    o.lt_of_gt p k,
    o.gt_of_lt q k,
    o.gt_of_lt p k,
    o.cmp_refl k,
    get-Above k m,
    get-Above p m,
    Above-trans p k m,
  )

  -- A key that is found in a map above `k` lies above `k`.
  pub lt-get : (k p : K) {w : V} (m : List (K × V)) → Above k m → get p m ≡ some w → k ≺ p
  unfolding get
  lt-get k p {w} [] a h = cc
  lt-get k p {w} ((j, v) ∷ m) a h = ground (arith, o.eq_of_cmp p j, lt-get k p {w = w} m)

  -- The last entry has the greatest key, and is found by it.
  pub last-max :
      (m : List (K × V)) (e : K × V)
      → IsSorted m
      → last m ≡ some e
      → All (λ d. (d.0 ≺ e.0) ⊎ (d.0 ≡ e.0)) m × (get e.0 m ≡ some e.1)
  unfolding get
  last-max [] e s h = cc
  last-max (d ∷ []) e s h = ground (arith, o.cmp_refl d.0)
  last-max (d ∷ c ∷ m) e s h =
      let (bounded, found) = last-max (c ∷ m) e s.1 h in
      let below = lt-get d.0 e.0 (c ∷ m) s.0 found in
      ((inl below, bounded), rw (o.gt_of_lt d.0 e.0 below, get) found)

  first_entry :
      (d : K × V) (m : List (K × V))
      → IsSorted (d ∷ m)
      → All (λ c. (d.0 ≺ c.0) ⊎ (c.0 ≡ d.0)) (d ∷ m) × (get d.0 (d ∷ m) ≡ some d.1)
  unfolding get
  first_entry d m s =
      let rest : All (λ c. (d.0 ≺ c.0) ⊎ (c.0 ≡ d.0)) m =
        All-imp {Q = λ c. (d.0 ≺ c.0) ⊎ (c.0 ≡ d.0)} (λ c l. inl l) m s.0 in
      ((inr refl, rest), rw (o.cmp_refl d.0, get))

  -- The first entry has the least key, and is found by it.
  pub first-min :
      (m : List (K × V)) (e : K × V)
      → IsSorted m
      → first m ≡ some e
      → All (λ d. (e.0 ≺ d.0) ⊎ (d.0 ≡ e.0)) m × (get e.0 m ≡ some e.1)
  first-min [] e s h = cc
  first-min (d ∷ m) e s h =
      let same : d ≡ e = cc in
      subst (λ c. All (λ b. (c.0 ≺ b.0) ⊎ (b.0 ≡ c.0)) (d ∷ m) × (get c.0 (d ∷ m) ≡ some c.1)) same
        (first_entry d m s)

  -- Two maps that read alike have one first entry.
  heads :
      (k j : K) (v w : V) (m n : List (K × V))
      → Above k m
      → Above j n
      → ((p : K) → get p ((k, v) ∷ m) ≡ get p ((j, w) ∷ n))
      → (k ≡ j) × (v ≡ w)
  unfolding get
  heads k j v w m n a b h = ground (
    arith,
    h k,
    h j,
    o.cmp_refl k,
    o.cmp_refl j,
    o.eq_of_cmp k j,
    o.lt_of_gt k j,
    get-Above k n,
    Above-trans k j n,
  )

  tails :
      (k p : K) (v w : V) (m n : List (K × V))
      → Above k m
      → Above k n
      → get p ((k, v) ∷ m) ≡ get p ((k, w) ∷ n)
      → get p m ≡ get p n
  unfolding get
  tails k p v w m n a b h =
      ground
        (arith, o.eq_of_cmp p k, get-Above p m, get-Above p n, Above-trans p k m, Above-trans p k n)

  -- A sorted map is determined by what it reads as.
  pub IsSorted-ext :
      (m n : List (K × V)) → IsSorted m → IsSorted n → ((k : K) → get k m ≡ get k n) → m ≡ n
  unfolding get
  IsSorted-ext [] [] s t h = refl
  IsSorted-ext [] ((k, v) ∷ n) s t h = absurd (ground (arith, h k, o.cmp_refl k))
  IsSorted-ext ((k, v) ∷ m) [] s t h = absurd (ground (arith, h k, o.cmp_refl k))
  IsSorted-ext ((k, v) ∷ m) ((j, w) ∷ n) s t h =
      let (same, value) = heads k j v w m n s.0 t.0 h in
      let above : Above k n = rw same t.0 in
      let rest : m ≡ n =
        IsSorted-ext m n s.1 t.1 λ p. tails k p v w m n s.0 above (rw (← same) at (h p)) in
      cc

  -- In a sorted map the order in which the entries are compared does not matter.
  pub get-cons :
      (p k : K) (v : V) (m : List (K × V))
      → Above k m
      → (get p ((k, v) ∷ m) ≡ elim (o.cmp p k) [ eq ↦ some v | _ ↦ get p m ])
        × (get p ((k, v) ∷ m) ≡ elim (get p m) [
          | some q ↦ some q
          | none ↦ elim (o.cmp p k) [ eq ↦ some v | _ ↦ none ]
        ])
  unfolding get
  get-cons p k v m a =
      ground (arith, o.eq_of_cmp p k, get-Above p m, get-Above k m, Above-trans p k m)
