-- ===== src/Connect.antt =====
-- `WebSocketConfig` of src/actors.rs, and what the connectors send to subscribe: the JSON that they
-- write with serde_json is an interface, with its laws apart.
pub mod Kraken
pub mod Binance
pub mod Bybit
pub mod Okx
pub mod Coinbase
pub mod Cryptocom
mod Tests
use exchange_apiws.Prelude.{ℕ, Option, none, some, List, [], ◌∷◌, ◌≡◌, if◌then◌else◌}
use exchange_apiws.Prelude.Text.{Text, text, same}
use exchange_apiws.Prelude.Options.{or_else}
use exchange_apiws.Prelude.Int.{ℤ}
use exchange_apiws.Prelude.Json.{Json}

pub record WebSocketConfig : Type 0 where
  pub url : Text
  pub exchange : Text
  pub symbol : Text
  pub subscription_msg : Option Text
  pub ping_interval_secs : ℕ
  pub reconnect_delay_secs : ℕ
  pub max_reconnect_attempts : ℕ

-- The values that `json!` makes, and `to_string`.
pub record JsonMake (V : Type 0) : Type 0 where
  pub string : Text → V
  pub number : ℕ → V
  pub integer : ℤ → V
  pub array : List V → V
  pub object : List (Text × V) → V
  pub print : V → Text

-- A key that is written twice has the value written last.
abbrev pub find_last : {V : Type 0} → Text → List (Text × V) → Option V
find_last key [] = none
find_last key ((k, v) ∷ fields) =
    or_else (find_last key fields) (if same k key then some v else none)

-- What is made is read back.
pub record Faithful {V : Type 0} ⦃j : Json V⦄ (m : JsonMake V) : Type 0 where
  pub get-object :
      (fields : List (Text × V)) (key : Text) → j.get (m.object fields) key ≡ find_last key fields
  pub as_str-string : (s : Text) → j.as_str (m.string s) ≡ some s
  pub as_array-array : (vs : List V) → j.as_array (m.array vs) ≡ some vs
