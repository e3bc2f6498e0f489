-- ===== src/Prelude/Values.antt =====
-- Concrete values for the runs: JSON as trees, with whole numbers in place of `f64`.
use exchange_apiws.Prelude.{
  ℕ, ◌+◌, ◌-◌, ◌*◌, ◌/◌, max, compare, leb, ltb, ◌==◌, if◌then◌else◌, Bool, true, false, ◌&&◌,
  Option, none, some, List, [], ◌∷◌, get_elem?,
}
use mathlib.Core.List.{foldr}
use exchange_apiws.Prelude.Order.{compare-IsTotal}
use exchange_apiws.Prelude.Text.{Text, to_string, same}
use exchange_apiws.Prelude.Int.{pos}
use exchange_apiws.Prelude.Float.{Float}
use exchange_apiws.Prelude.Options.{◌>>=◌}
use exchange_apiws.Prelude.Json.{Json, JsonFloat}
use mathlib.Core.Option

-- Whole-number prices in place of `f64`.
instance abbrev pub nat_float : Float ℕ
nat_float = record {
  total_cmp = compare;
  total = compare-IsTotal;
  is_zero = λ x. x == 0;
  ge = λ x y. leb y x;
  zero = 0;
  neg = λ x. 0 - x;
  max_of = max;
  sum = foldr ◌+◌ 0;
  is_positive = λ x. ltb 0 x;
  sub = λ x y. x - y;
  midpoint = λ x y. (x + y) / 2;
}

mutual
  pub data Value : Type 0 where
    null : Value
    bool : Bool → Value
    num : ℕ → Value
    str : Text → Value
    arr : Items → Value
    obj : Fields → Value

  pub data Items : Type 0 where
    nil : Items
    cons : Value → Items → Items

  pub data Fields : Type 0 where
    end : Fields
    field : Text → Value → Fields → Fields

abbrev pub to_list : Items → List Value
to_list nil = []
to_list (cons v vs) = v ∷ to_list vs

abbrev find : Text → Fields → Option Value
find key end = none
find key (field k v fs) = let rest = find key fs in if same k key then some v else rest

abbrev get : Value → Text → Option Value
get (obj fs) key = find key fs
get _ key = none

abbrev as_array : Value → Option (List Value)
as_array (arr vs) = some (to_list vs)
as_array _ = none

abbrev entries : Fields → List (Text × Value)
entries end = []
entries (field k v fs) = (k, v) ∷ entries fs

abbrev as_object : Value → Option (List (Text × Value))
as_object (obj fs) = some (entries fs)
as_object _ = none

abbrev is_null : Value → Bool
is_null null = true
is_null _ = false

abbrev as_str : Value → Option Text
as_str (str s) = some s
as_str _ = none

abbrev as_u64 : Value → Option ℕ
as_u64 (num n) = some n
as_u64 _ = none

abbrev as_bool : Value → Option Bool
as_bool (bool b) = some b
as_bool _ = none

-- Decimal digits, from the left.
abbrev number : ℕ → Text → Option ℕ
number n [] = some n
number n (c ∷ s) =
    let rest = number (n * 10 + (c - 48)) s in if leb 48 c && leb c 57 then rest else none

abbrev parse_u64 : Text → Option ℕ
parse_u64 [] = none
parse_u64 (c ∷ s) = number 0 (c ∷ s)

instance abbrev pub value_json : Json Value
value_json = record {
  get = get;
  get_index = λ v n. as_array v >>= λ vs. get_elem? vs n;
  as_str = as_str;
  as_bool = as_bool;
  as_i64 = λ v. Option.map pos (as_u64 v);
  as_u64 = as_u64;
  as_array = as_array;
  as_object = as_object;
  is_null = is_null;
  number_text = λ v. Option.map to_string (as_u64 v);
  parse_i64 = λ s. Option.map pos (parse_u64 s);
  parse_u64 = parse_u64;
}

instance abbrev pub value_float : JsonFloat Value ℕ
value_float = record { as_f64 = as_u64; parse_f64 = parse_u64 }
