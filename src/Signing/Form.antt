-- ===== src/Signing/Form.antt =====
-- The form bodies of src/kraken/auth.rs against the query strings of src/http.rs.
use exchange_apiws.Prelude.{false, List, [], ◌∷◌, map, ◌≡◌, refl, ◌∙◌, ap, arith, All}
use exchange_apiws.Prelude.Text.{Text, has}
use exchange_apiws.Http.{percent_encode, pair, join, build_query_string}
use exchange_apiws.Http.Query.{IsByte, parse_query, parse_query-build_query_string}
use exchange_apiws.Signing.{form_url_encode, form_pair, form_encode}

-- No space in a text.
abbrev pub NoSpace : Text → Type 0
NoSpace s = has 32 s ≡ false

form_url_encode-eq : (s : Text) → NoSpace s → form_url_encode s ≡ percent_encode s
unfolding form_url_encode percent_encode
form_url_encode-eq [] h = refl
form_url_encode-eq (b ∷ s) h = ground (arith, form_url_encode-eq s)

map-form_pair :
    (params : List (Text × Text))
    → All (λ p. NoSpace p.0 × NoSpace p.1) params
    → map form_pair params ≡ map pair params
unfolding form_pair pair
map-form_pair [] h = refl
map-form_pair ((k, v) ∷ params) ((nk, nv), h) =
    rw (form_url_encode-eq k nk, form_url_encode-eq v nv, map-form_pair params h) refl

-- A body that is signed for Kraken says what its parameters say: read as a query, by RFC 3986, it
-- gives them back in order, if there is one and no key or value has a space in it.
pub parse_query-form_encode :
    (p : Text × Text) (params : List (Text × Text))
    → All (λ q. NoSpace q.0 × NoSpace q.1) (p ∷ params)
    → All (λ q. All IsByte q.0 × All IsByte q.1) (p ∷ params)
    → (63 ∷ form_encode (p ∷ params) ≡ build_query_string (p ∷ params))
      × (parse_query (63 ∷ form_encode (p ∷ params)) ≡ p ∷ params)
unfolding form_encode build_query_string
parse_query-form_encode p params n b =
    let same : 63 ∷ form_encode (p ∷ params) ≡ build_query_string (p ∷ params) =
      ap (λ l. 63 ∷ join l) (map-form_pair (p ∷ params) n) in
    (same, ap parse_query same ∙ parse_query-build_query_string (p ∷ params) b)
