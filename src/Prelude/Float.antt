-- ===== src/Prelude/Float.antt =====
-- `f64` as an abstract type with the operations that the order book and the parsers use. `total_cmp` is the total
-- order of IEEE 754 on bit patterns; `ge`, `sub` and `midpoint` are the machine's, with no laws.
use exchange_apiws.Prelude.{Bool, Ordering, List}
use exchange_apiws.Prelude.Order.{IsTotal}

pub record Float (F : Type 0) : Type 0 where
  pub total_cmp : F → F → Ordering
  pub total : IsTotal total_cmp
  -- `x == 0.0`
  pub is_zero : F → Bool
  -- `x >= y`
  pub ge : F → F → Bool
  -- `0.0`, and `x > 0.0`
  pub zero : F
  pub is_positive : F → Bool
  -- `x.max(y)`, and `sum` of an iterator
  pub max_of : F → F → F
  pub sum : List F → F
  pub neg : F → F
  pub sub : F → F → F
  pub midpoint : F → F → F
