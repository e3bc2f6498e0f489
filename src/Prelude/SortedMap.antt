-- ===== src/Prelude/SortedMap.antt =====
-- Rust's `BTreeMap`, which src/book.rs keys by price: an association list in ascending order of
-- its keys. A key that is inserted again gets the new value.
pub mod Laws
use Prim.Native.Nat.Ordering.{lt, eq, gt}
use exchange_apiws.Prelude.{List, [], ◌∷◌, Option, none, some}
use exchange_apiws.Prelude.Order.{Ord}

module _ {ℓ κ} {K : Type ℓ} {V : Type κ} where
  -- `first_key_value` and `last_key_value`
  abbrev pub first : List (K × V) → Option (K × V)
  first [] = none
  first (e ∷ m) = some e

  abbrev pub last : List (K × V) → Option (K × V)
  last [] = none
  last (e ∷ []) = some e
  last (e ∷ d ∷ m) = last (d ∷ m)

module _ {ℓ κ} {K : Type ℓ} {V : Type κ} ⦃o : Ord K⦄ where
  unfoldable pub get : K → List (K × V) → Option V
  get q [] = none
  get q ((k, v) ∷ m) = elim (o.cmp q k) [ lt ↦ none | eq ↦ some v | gt ↦ get q m ]

  unfoldable pub insert : K → V → List (K × V) → List (K × V)
  insert q w [] = (q, w) ∷ []
  insert q w ((k, v) ∷ m) = elim (o.cmp q k) [
    | lt ↦ (q, w) ∷ (k, v) ∷ m
    | eq ↦ (q, w) ∷ m
    | gt ↦ (k, v) ∷ insert q w m
  ]

  unfoldable pub remove : K → List (K × V) → List (K × V)
  remove q [] = []
  remove q ((k, v) ∷ m) = elim (o.cmp q k) [ lt ↦ (k, v) ∷ m | eq ↦ m | gt ↦ (k, v) ∷ remove q m ]
