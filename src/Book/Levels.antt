-- ===== src/Book/Levels.antt =====
-- `apply_levels` of src/book.rs: what a side of the book reads after a list of level updates.
use Prim.Native.Nat.Ordering.{eq}
use exchange_apiws.Prelude.{
  false, Option, none, some, List, [], ◌∷◌, ◌≡◌, refl, ◌∙◌, if◌then◌else◌, arith, Bool-cases, inl,
  inr, All,
}
use exchange_apiws.Prelude.Float.{Float}
use exchange_apiws.Prelude.SortedMap
use exchange_apiws.Prelude.SortedMap.Laws.{
  IsSorted, update, insert-IsSorted, remove-IsSorted, get-insert, get-remove,
}
use exchange_apiws.Book.{Px, px_ord, Level, Side, apply_levels}

module _ {F : Type 0} ⦃fl : Float F⦄ where
  -- The quantity that the last level at price `p` gives, if one of `levels` is at `p`.
  unfoldable pub last_quote : Px F → List (Level F) → Option F
  last_quote p [] = none
  last_quote p ((price, qty) ∷ levels) = elim (last_quote p levels) [
    | some q ↦ some q
    | none ↦ elim (fl.total_cmp p.price price) [ eq ↦ some qty | _ ↦ none ]
  ]

  -- What price `p` reads after `levels`, if it read `old` before.
  unfoldable pub quoted : Px F → List (Level F) → Option F → Option F
  unfolding last_quote
  quoted p levels old = elim (last_quote p levels) [
    | none ↦ old
    | some q ↦ if fl.is_zero q then none else some q
  ]

  abbrev step_level : Side F → Level F → Side F
  step_level side l =
      if fl.is_zero l.1
      then SortedMap.remove (record { price = l.0 }) side
      else SortedMap.insert (record { price = l.0 }) l.1 side

  step_level-IsSorted : (side : Side F) (l : Level F) → IsSorted side → IsSorted (step_level side l)
  step_level-IsSorted side l s = ground (
    arith,
    remove-IsSorted (record { price = l.0 }) side,
    insert-IsSorted (record { price = l.0 }) l.1 side,
  )

  get-step_level :
      (p : Px F) (side : Side F) (l : Level F)
      → IsSorted side
      → SortedMap.get p (step_level side l)
        ≡ update
            (λ q. SortedMap.get q side)
            (record { price = l.0 })
            (if fl.is_zero l.1 then none else some l.1)
            p
  get-step_level p side l s = elim (Bool-cases (fl.is_zero l.1)) [
    | inl z ↦ rw z (get-remove p (record { price = l.0 }) side s)
    | inr z ↦ rw z (get-insert p (record { price = l.0 }) l.1 side)
  ]

  -- Level updates keep a side in ascending order of price, with no price twice.
  pub apply_levels-IsSorted :
      (levels : List (Level F)) (side : Side F)
      → IsSorted side
      → IsSorted (apply_levels side levels)
  unfolding apply_levels
  apply_levels-IsSorted [] side s = s
  apply_levels-IsSorted (l ∷ levels) side s =
      apply_levels-IsSorted levels (step_level side l) (step_level-IsSorted side l s)

  -- After a list of level updates, a price that the list names reads the quantity of its last
  -- update, or nothing if that is zero, and any other price reads as before.
  pub get-apply_levels :
      (p : Px F) (levels : List (Level F)) (side : Side F)
      → IsSorted side
      → SortedMap.get p (apply_levels side levels) ≡ quoted p levels (SortedMap.get p side)
  unfolding apply_levels quoted
  get-apply_levels p [] side s = refl
  get-apply_levels p (l ∷ levels) side s =
      get-apply_levels p levels (step_level side l) (step_level-IsSorted side l s)
      ∙ rw (get-step_level p side l s) (ground arith)

  -- No level of a side has quantity zero.
  abbrev pub IsNonzero : Side F → Type 0
  IsNonzero side = All (λ e. fl.is_zero e.1 ≡ false) side

  insert-IsNonzero :
      (q : Px F) (w : F) (m : Side F)
      → fl.is_zero w ≡ false
      → IsNonzero m
      → IsNonzero (SortedMap.insert q w m)
  unfolding SortedMap.insert
  insert-IsNonzero q w [] z h = (z, tt)
  insert-IsNonzero q w ((k, v) ∷ m) z h = ground (arith, insert-IsNonzero q w m)

  remove-IsNonzero : (q : Px F) (m : Side F) → IsNonzero m → IsNonzero (SortedMap.remove q m)
  unfolding SortedMap.remove
  remove-IsNonzero q [] h = tt
  remove-IsNonzero q ((k, v) ∷ m) h = ground (arith, remove-IsNonzero q m)

  step_level-IsNonzero :
      (side : Side F) (l : Level F) → IsNonzero side → IsNonzero (step_level side l)
  step_level-IsNonzero side l h = ground (
    arith,
    remove-IsNonzero (record { price = l.0 }) side,
    insert-IsNonzero (record { price = l.0 }) l.1 side,
  )

  pub apply_levels-IsNonzero :
      (levels : List (Level F)) (side : Side F)
      → IsNonzero side
      → IsNonzero (apply_levels side levels)
  unfolding apply_levels
  apply_levels-IsNonzero [] side h = h
  apply_levels-IsNonzero (l ∷ levels) side h =
      apply_levels-IsNonzero levels (step_level side l) (step_level-IsNonzero side l h)
