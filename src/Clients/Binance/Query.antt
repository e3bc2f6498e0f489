-- ===== src/Clients/Binance/Query.antt =====
-- The query that src/binance/signed_rest.rs signs and sends.
use exchange_apiws.Prelude.{
  ℕ, true, List, [], ◌∷◌, ◌++◌, ◌≡◌, refl, sym, ap, ◌∙◌, map, arith, All, All-imp, All-append,
  append_assoc,
}
use exchange_apiws.Prelude.Text.{Text, text, to_string}
use exchange_apiws.Prelude.Digits.{IsDigit, to_string-IsDigit}
use exchange_apiws.Http.{is_unreserved, percent_encode, pair, join, build_query_string}
use exchange_apiws.Http.Query.{IsByte, parse_query, parse_query-build_query_string}
use exchange_apiws.Clients.Binance.{
  BinanceSignedRest, separated, push_params, total_params, signed_query,
}

-- A text after others, with `&` between.
abbrev add : Text → Text → Text
add q p = separated q ++ p

push_params-append :
    (q : Text) (xs ys : List (Text × Text))
    → push_params q (xs ++ ys) ≡ push_params (push_params q xs) ys
unfolding push_params
push_params-append q [] ys = refl
push_params-append q (x ∷ xs) ys =
    push_params-append (add q (percent_encode x.0 ++ 61 ∷ percent_encode x.1)) xs ys

push_params-cons :
    (c : ℕ) (q : Text) (x : Text × Text) (xs : List (Text × Text))
    → push_params (c ∷ q) (x ∷ xs) ≡ (c ∷ q) ++ b'&' ∷ join (map pair (x ∷ xs))
unfolding push_params join pair
push_params-cons c q (k, v) [] = append_assoc (c ∷ q) (b'&' ∷ []) (pair (k, v))
push_params-cons c q (k, v) (y ∷ ys) =
    push_params-cons c ((q ++ b'&' ∷ []) ++ pair (k, v)) y ys ∙ simp append_assoc

-- A parameter is no empty text, since it has a `=`.
first_of : (s t : Text) → (c : ℕ) × (q : Text) × (s ++ 61 ∷ t ≡ c ∷ q)
first_of [] t = (61, t, refl)
first_of (c ∷ s) t = (c, s ++ 61 ∷ t, refl)

push_params-eq-join :
    (x : Text × Text) (xs : List (Text × Text)) → push_params [] (x ∷ xs) ≡ join (map pair (x ∷ xs))
unfolding push_params join pair
push_params-eq-join (k, v) [] = refl
push_params-eq-join (k, v) (y ∷ ys) =
    let (c, q, e) = first_of (percent_encode k) (percent_encode v) in
    rw e (push_params-cons c q y ys)

percent_encode-id : (s : Text) → All (λ c. is_unreserved c ≡ true) s → percent_encode s ≡ s
unfolding percent_encode
percent_encode-id [] h = refl
percent_encode-id (c ∷ s) h = rw (h.0, percent_encode-id s h.1) refl

digit_unreserved : (c : ℕ) → IsDigit c → is_unreserved c ≡ true
unfolding is_unreserved
digit_unreserved c h = ground arith

percent_encode-to_string : (n : ℕ) → percent_encode (to_string n) ≡ to_string n
percent_encode-to_string n =
    percent_encode-id (to_string n) (All-imp digit_unreserved (to_string n) (to_string-IsDigit n))

tail_lem :
    (q w t g : Text)
    → add (add (add q (text "recvWindow=" ++ w)) (text "timestamp=" ++ t)) (text "signature=" ++ g)
      ≡ (separated q ++ (text "recvWindow=" ++ (w ++ (text "&timestamp=" ++ t))))
        ++ (text "&signature=" ++ g)
tail_lem [] w t g = simp append_assoc
tail_lem (c ∷ q) w t g = simp append_assoc

-- What a signed query is to say.
abbrev pub fields_of : BinanceSignedRest → List (Text × Text) → ℕ → List (Text × Text)
fields_of client params now_ms =
    params
    ++ (text "recvWindow", to_string client.recv_window)
      ∷ (text "timestamp", to_string now_ms)
      ∷ (text "signature", client.hmac_hex client.api_secret (total_params client params now_ms))
      ∷ []

signed_query-push_params :
    (client : BinanceSignedRest) (params : List (Text × Text)) (now_ms : ℕ)
    → All
        (λ c. is_unreserved c ≡ true)
        (client.hmac_hex client.api_secret (total_params client params now_ms))
    → signed_query client params now_ms ≡ push_params [] (fields_of client params now_ms)
unfolding signed_query total_params
signed_query-push_params client params now_ms u =
    let sig = client.hmac_hex client.api_secret (total_params client params now_ms) in
    sym (
      push_params-append [] params _
      ∙ unfold push_params percent_encode is_unreserved in
        rw
          (
            percent_encode-to_string client.recv_window,
            percent_encode-to_string now_ms,
            percent_encode-id sig u,
          )
          (tail_lem (push_params [] params) (to_string client.recv_window) (to_string now_ms) sig))

parse_query-push_params :
    (xs : List (Text × Text)) (y : Text × Text) (ys : List (Text × Text))
    → All (λ p. All IsByte p.0 × All IsByte p.1) (xs ++ y ∷ ys)
    → parse_query (63 ∷ push_params [] (xs ++ y ∷ ys)) ≡ xs ++ y ∷ ys
unfolding build_query_string
parse_query-push_params [] y ys b =
    ap (λ q. parse_query (63 ∷ q)) (push_params-eq-join y ys)
    ∙ parse_query-build_query_string (y ∷ ys) b
parse_query-push_params (x ∷ xs) y ys b =
    ap (λ q. parse_query (63 ∷ q)) (push_params-eq-join x (xs ++ y ∷ ys))
    ∙ parse_query-build_query_string (x ∷ (xs ++ y ∷ ys)) b

unreserved-IsByte : (c : ℕ) → is_unreserved c ≡ true → IsByte c
unfolding is_unreserved
unreserved-IsByte c h = ground arith

to_string-IsByte : (n : ℕ) → All IsByte (to_string n)
to_string-IsByte n = All-imp (λ c h. omega arith) (to_string n) (to_string-IsDigit n)

-- The query that is signed and sent for Binance, read by RFC 3986, says the parameters in order, the
-- window, the timestamp of the attempt, and last the signature of all that stands before it, whatever
-- bytes the parameters hold, where signatures are made of unreserved characters, as hexadecimal
-- digits are.
pub signed_query-parse_query :
    (client : BinanceSignedRest) (params : List (Text × Text)) (now_ms : ℕ)
    → All (λ p. All IsByte p.0 × All IsByte p.1) params
    → All
        (λ c. is_unreserved c ≡ true)
        (client.hmac_hex client.api_secret (total_params client params now_ms))
    → (parse_query (63 ∷ signed_query client params now_ms) ≡ fields_of client params now_ms)
      × (signed_query client params now_ms
          ≡ total_params client params now_ms
            ++ (text "&signature="
                ++ client.hmac_hex client.api_secret (total_params client params now_ms)))
unfolding signed_query
signed_query-parse_query client params now_ms b u =
    let sig = client.hmac_hex client.api_secret (total_params client params now_ms) in
    (
      ap (λ q. parse_query (63 ∷ q)) (signed_query-push_params client params now_ms u)
          ∙ parse_query-push_params params (text "recvWindow", to_string client.recv_window) _
              (All-append (λ p. All IsByte p.0 × All IsByte p.1) params _ b
                (
                  (omega arith, to_string-IsByte client.recv_window),
                  (
                    (omega arith, to_string-IsByte now_ms),
                    ((omega arith, All-imp unreserved-IsByte sig u), tt),
                  ),
                )),
      refl,
    )
