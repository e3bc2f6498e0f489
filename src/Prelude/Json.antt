-- ===== src/Prelude/Json.antt =====
-- JSON values as the sources use those of serde_json, and the number parsers of the standard library
-- that they call: interfaces, with no laws. `data[key]` of a missing key is null, on which every
-- conversion fails, so it is read here like `data.get(key)`.
use exchange_apiws.Prelude.{ℕ, Bool, Option, List}
use exchange_apiws.Prelude.Int.{ℤ}
use exchange_apiws.Prelude.Options.{◌>>=◌}
use exchange_apiws.Prelude.Text.{Text}

pub record Json (V : Type 0) : Type 0 where
  -- `get` of a key and of a position
  pub get : V → Text → Option V
  pub get_index : V → ℕ → Option V
  pub as_str : V → Option Text
  pub as_bool : V → Option Bool
  pub as_i64 : V → Option ℤ
  pub as_u64 : V → Option ℕ
  pub as_array : V → Option (List V)
  -- the entries of an object, in order
  pub as_object : V → Option (List (Text × V))
  pub is_null : V → Bool
  -- `to_string` of a number
  pub number_text : V → Option Text
  -- `str::parse`
  pub parse_i64 : Text → Option ℤ
  pub parse_u64 : Text → Option ℕ

pub record JsonFloat (V F : Type 0) : Type 0 where
  pub as_f64 : V → Option F
  pub parse_f64 : Text → Option F

module _ {V : Type 0} ⦃j : Json V⦄ where
  abbrev pub str_at : V → Text → Option Text
  str_at v key = j.get v key >>= j.as_str

  abbrev pub bool_at : V → Text → Option Bool
  bool_at v key = j.get v key >>= j.as_bool

  abbrev pub i64_at : V → Text → Option ℤ
  i64_at v key = j.get v key >>= j.as_i64

  abbrev pub u64_at : V → Text → Option ℕ
  u64_at v key = j.get v key >>= j.as_u64

  abbrev pub array_at : V → Text → Option (List V)
  array_at v key = j.get v key >>= j.as_array

  -- A number in a text, `data[key].as_str().and_then(|s| s.parse().ok())`.
  abbrev pub parsed_i64_at : V → Text → Option ℤ
  parsed_i64_at v key = str_at v key >>= j.parse_i64
