-- ===== src/Http.antt =====
-- src/http.rs: percent encoding and query strings here, the retry loops in Retry.
pub mod Retry
pub mod Query
mod Tests
use exchange_apiws.Prelude.{
  ℕ, ◌+◌, ◌/◌, ◌%◌, Bool, ◌&&◌, ◌||◌, List, [], ◌∷◌, ◌++◌, map, leb, ltb, ◌==◌, if◌then◌else◌,
}
use exchange_apiws.Prelude.Text.{Text}

-- The bytes of RFC 3986 that stand for themselves.
unfoldable pub is_unreserved : ℕ → Bool
is_unreserved b =
    ((((((leb 65 b && leb b 90) || (leb 97 b && leb b 122)) || (leb 48 b && leb b 57)) || b == 45)
        || b == 95)
      || b == 46)
    || b == 126

-- `char::from_digit(d, 16)` in upper case.
unfoldable pub hex_digit : ℕ → ℕ
hex_digit d = if ltb d 10 then 48 + d else 55 + d

unfoldable pub percent_encode : Text → Text
unfolding is_unreserved hex_digit
percent_encode [] = []
percent_encode (b ∷ s) =
    let rest = percent_encode s in
    if is_unreserved b then b ∷ rest else 37 ∷ hex_digit (b / 16) ∷ hex_digit (b % 16) ∷ rest

-- `[String]::join("&")`.
unfoldable pub join : List Text → Text
join [] = []
join (s ∷ []) = s
join (s ∷ t ∷ rest) = s ++ 38 ∷ join (t ∷ rest)

unfoldable pub pair : Text × Text → Text
unfolding percent_encode
pair (k, v) = percent_encode k ++ 61 ∷ percent_encode v

unfoldable pub build_query_string : List (Text × Text) → Text
unfolding join pair
build_query_string [] = []
build_query_string (p ∷ params) = 63 ∷ join (map pair (p ∷ params))
