-- ===== src/Signing.antt =====
-- The texts that requests are signed by: src/auth.rs (KuCoin), src/kraken/auth.rs, src/bybit/auth.rs,
-- src/binance/auth.rs here, src/cryptocom/auth.rs in Params. The hashes are parameters.
pub mod Params
pub mod Form
pub mod Reorder
mod Tests
use exchange_apiws.Prelude.{
  ℕ, ◌+◌, ◌/◌, ◌%◌, Bool, true, false, Option, none, some, List, [], ◌∷◌, ◌++◌, map, ◌⊎◌, inl, inr,
  ◌==◌, if◌then◌else◌, leb, ◌-◌, ◌&&◌,
}
use exchange_apiws.Prelude.Text.{Text, text, to_string}
use exchange_apiws.Prelude.Int.{ℤ}
use exchange_apiws.Error.{ExchangeError, auth}
use exchange_apiws.Http.{is_unreserved, hex_digit, join}
use exchange_apiws.Market.{skewed_timestamp_ms}
use exchange_apiws.Streams.{to_string_i64}

-- `to_uppercase` of an ASCII word, which an HTTP method is.
abbrev pub to_uppercase : Text → Text
to_uppercase s = map (λ c. if leb b'a' c && leb c b'z' then c - 32 else c) s

-- The text that KuCoin's signature is of.
unfoldable pub prehash : Text → Text → Text → Text → Text
prehash ts method endpoint body = ts ++ (to_uppercase method ++ (endpoint ++ body))

-- `hv`: `valid` says whether `HeaderValue::from_str` takes a text, `debug` prints it.
abbrev pub hv : (Text → Bool) → (Text → Text) → Text → ExchangeError ⊎ Text
hv valid debug s =
    if valid s then inr s else inl (auth (text "header value contains invalid bytes: " ++ debug s))

abbrev pub ◌>>=◌ : {A B : Type 0} → ExchangeError ⊎ A → (A → ExchangeError ⊎ B) → ExchangeError ⊎ B
inl e >>= f = inl e
inr a >>= f = f a

infixl 5 ◌>>=◌
-- `build_headers_with_offset`; `build_headers` is its call with the offset 0.
unfoldable pub build_headers_with_offset :
    (Text → Text → Text)
    → (Text → Bool)
    → (Text → Text)
    → ℤ
    → Text
    → Text
    → Text
    → Text
    → Text
    → Text
    → ℤ
    → ExchangeError ⊎ List (Text × Text)
unfolding prehash
build_headers_with_offset hmac_b64 valid debug local_ms key secret passphrase method endpoint body
      offset_ms =
    let ts = to_string_i64 (skewed_timestamp_ms local_ms offset_ms) in
    do
      k ← hv valid debug key
      sig ← hv valid debug (hmac_b64 secret (prehash ts method endpoint body))
      stamp ← hv valid debug ts
      pp ← hv valid debug (hmac_b64 secret passphrase)
      inr (
          (text "KC-API-KEY", k)
          ∷ (text "KC-API-SIGN", sig)
          ∷ (text "KC-API-TIMESTAMP", stamp)
          ∷ (text "KC-API-PASSPHRASE", pp)
          ∷ (text "KC-API-KEY-VERSION", text "2")
          ∷ (text "content-type", text "application/json")
          ∷ [])

-- `form_url_encode` of src/kraken/auth.rs: a space is a plus sign.
unfoldable pub form_url_encode : Text → Text
unfolding is_unreserved hex_digit
form_url_encode [] = []
form_url_encode (b ∷ s) =
    let rest = form_url_encode s in
    if is_unreserved b
    then b ∷ rest
    else if b == 32
    then 43 ∷ rest
    else 37 ∷ hex_digit (b / 16) ∷ hex_digit (b % 16) ∷ rest

unfoldable pub form_pair : Text × Text → Text
unfolding form_url_encode
form_pair (k, v) = form_url_encode k ++ 61 ∷ form_url_encode v

-- The loop of `form_encode` puts `&` before each pair but the first.
unfoldable pub form_encode : List (Text × Text) → Text
unfolding join form_pair
form_encode params = join (map form_pair params)

-- `sign_kraken_request`, with the decoding of the secret, both hashes and the encoding as parameters.
unfoldable pub sign_kraken_request :
    (Text → Text)
    → (Text → Text → Text)
    → (Text → Text ⊎ Text)
    → Text
    → ℕ
    → Text
    → Text
    → ExchangeError ⊎ Text
sign_kraken_request sha256 hmac_sha512_b64 decode_b64 uri_path nonce post_body api_secret_b64 =
    elim (decode_b64 api_secret_b64) [
      | inl e ↦ inl (auth (text "Kraken secret is not valid base64: " ++ e))
      | inr key ↦ inr (hmac_sha512_b64 key (uri_path ++ sha256 (to_string nonce ++ post_body)))
    ]

-- `sign_rest` and `sign_ws` of src/bybit/auth.rs.
unfoldable pub sign_rest : (Text → Text → Text) → Text → Text → ℕ → ℕ → Text → Text
sign_rest hmac_hex api_key api_secret timestamp recv_window payload =
    hmac_hex api_secret (to_string timestamp ++ (api_key ++ (to_string recv_window ++ payload)))

unfoldable pub sign_ws : (Text → Text → Text) → Text → ℕ → Text
sign_ws hmac_hex api_secret expires = hmac_hex api_secret (text "GET/realtime" ++ to_string expires)
