-- ===== src/Rest.antt =====
-- What the public REST clients of src/kraken/rest.rs, src/bybit/rest.rs, src/binance/rest.rs and
-- src/cryptocom/rest.rs share: the requests they hand to `PublicRestClient::get` of src/http.rs, and
-- the decoding of JSON as serde derives it. A decoder answers `none` where it fails; which error
-- that is, is left out.
pub mod Kraken
pub mod Bybit
pub mod Binance
pub mod Cryptocom
pub mod Levels
mod Tests
use mathlib.Core.Option
use exchange_apiws.Prelude.{ℕ, Option, none, some, List, [], ◌∷◌, ◌++◌, if◌then◌else◌}
use exchange_apiws.Prelude.Text.{Text, text}
use exchange_apiws.Prelude.Options.{◌>>=◌, unwrap_or, filter_map}
use exchange_apiws.Prelude.Int.{ℤ}
use exchange_apiws.Prelude.Float.{Float}
use exchange_apiws.Prelude.Json.{Json, JsonFloat}
use exchange_apiws.Http.{build_query_string}

-- A request by its path and its parameters.
abbrev pub Call : Type 0
Call = Text × List (Text × Text)

-- The url that `get` builds.
unfoldable pub url_of : Text → Call → Text
url_of base_url (path, params) = base_url ++ (path ++ build_query_string params)

-- `if let Some(v) = value { params.push((key, v)) }`.
abbrev pub push_some : Text → Option Text → List (Text × Text)
push_some key none = []
push_some key (some v) = (key, v) ∷ []

-- `Vec<T>` from elements.
abbrev pub traverse : {A B : Type 0} → (A → Option B) → List A → Option (List B)
traverse decode [] = some []
traverse decode (v ∷ vs) = do b ← decode v; bs ← traverse decode vs; some (b ∷ bs)

module _ {V : Type 0} ⦃j : Json V⦄ where
  -- A field that must be there.
  abbrev pub required : {A : Type 0} → (V → Option A) → Text → V → Option A
  required decode key v = j.get v key >>= decode

  -- `#[serde(default)]` on a field.
  abbrev pub defaulted : {A : Type 0} → A → (V → Option A) → Text → V → Option A
  defaulted a decode key v = elim (j.get v key) [ none ↦ some a | some x ↦ decode x ]

  -- A value that may be null.
  abbrev pub nullable : {A : Type 0} → (V → Option A) → V → Option (Option A)
  nullable decode x = if j.is_null x then some none else Option.map (λ a. some a) (decode x)

  -- `Option<T>`: absent, null, or there.
  abbrev pub optional : {A : Type 0} → (V → Option A) → Text → V → Option (Option A)
  optional decode key v = defaulted none (nullable decode) key v

  abbrev pub list_of : {A : Type 0} → (V → Option A) → V → Option (List A)
  list_of decode v = j.as_array v >>= traverse decode

  abbrev pub pair_of : List V → Option (Text × Text)
  pair_of (p ∷ q ∷ []) = do x ← j.as_str p; y ← j.as_str q; some (x, y)
  pair_of _ = none

  -- `[String; 2]`.
  abbrev pub text_pair : V → Option (Text × Text)
  text_pair v = j.as_array v >>= pair_of

module _ {F : Type 0} ⦃fl : Float F⦄ (parse : Text → Option F) where
  -- `self.field.parse().unwrap_or(0.0)`.
  unfoldable pub parse_or_zero : Text → F
  parse_or_zero s = unwrap_or (parse s) fl.zero

  -- `self.field.as_deref().and_then(|s| s.parse().ok()).unwrap_or(0.0)`.
  unfoldable pub parse_option_or_zero : Option Text → F
  parse_option_or_zero s = unwrap_or (s >>= parse) fl.zero

-- `parse_levels` of the order books: the rows whose price and quantity are numbers.
module _ {F : Type 0} (parse : Text → Option F) where
  abbrev pub level : Text × Text → Option (F × F)
  level (p, q) = do x ← parse p; y ← parse q; some (x, y)

  unfoldable pub parse_levels : List (Text × Text) → List (F × F)
  parse_levels rows = filter_map level rows
