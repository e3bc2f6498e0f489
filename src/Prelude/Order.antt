-- ===== src/Prelude/Order.antt =====
-- A total order by a comparison function, the bound `K: Ord` of Rust's ordered maps.
use Prim.Native.Nat.Ordering.{lt, eq, gt}
use exchange_apiws.Prelude.{◌≡◌, Ordering, compare, arith}

-- The laws of a comparison: it is transitive, turns round with its arguments, and says `eq` of equal
-- elements alone.
pub record IsTotal {ℓ} {A : Type ℓ} (order : A → A → Ordering) : Type ℓ where
  pub lt_trans : (x y z : A) → order x y ≡ lt → order y z ≡ lt → order x z ≡ lt
  pub gt_of_lt : (x y : A) → order x y ≡ lt → order y x ≡ gt
  pub cmp_refl : (x : A) → order x x ≡ eq
  pub lt_of_gt : (x y : A) → order x y ≡ gt → order y x ≡ lt
  pub eq_of_cmp : (x y : A) → order x y ≡ eq → x ≡ y

pub compare-IsTotal : IsTotal compare
compare-IsTotal = ground arith

pub record Ord {ℓ} (K : Type ℓ) : Type ℓ where
  pub cmp : K → K → Ordering
  pub total : IsTotal cmp
  pub open total use *

abbrev pub ◌≺◌ {ℓ} : {A : Type ℓ} ⦃ord : Ord A⦄ → A → A → Type 0
◌≺◌ ⦃ord⦄ x y = ord.cmp x y ≡ lt

infix 50 ◌≺◌
