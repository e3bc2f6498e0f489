-- ===== src/Clients/Kraken/Body.antt =====
-- What Kraken reads from the body of a call of src/kraken/private.rs.
use mathlib.Core.Option
use exchange_apiws.Prelude.{
  ℕ, Bool, true, false, Option, none, some, List, [], ◌∷◌, ◌≡◌, refl, sym, subst, arith, All,
  All-imp, if◌then◌else◌,
}
use exchange_apiws.Prelude.Text.{Text, text, to_string, same}
use exchange_apiws.Prelude.Options.{or_else}
use exchange_apiws.Prelude.Digits.{to_string-IsDigit, has-ne}
use exchange_apiws.Http.Query.{IsByte, parse_query}
use exchange_apiws.Signing.Form.{NoSpace, parse_query-form_encode}
use exchange_apiws.Clients.Kraken.{
  KrakenOrderOptions, push_some, push_if, expiry_params, place_order_with,
}
use exchange_apiws.Clients.Kraken.Attempts.{body_of}

-- The value of the first parameter with a key.
abbrev pub value_of : Text → List (Text × Text) → Option Text
value_of key [] = none
value_of key ((k, v) ∷ params) = if same k key then some v else value_of key params

-- Bytes with no space among them.
abbrev pub IsPlain : Text → Type 0
IsPlain s = NoSpace s × All IsByte s

abbrev pub IsPlainOption : Option Text → Type 0
IsPlainOption none = Unit
IsPlainOption (some s) = IsPlain s

abbrev pub ArePlain : List (Text × Text) → Type 0
ArePlain params = All (λ q. IsPlain q.0 × IsPlain q.1) params

pub to_string-IsPlain : (n : ℕ) → IsPlain (to_string n)
to_string-IsPlain n =
    let digits = to_string-IsDigit n in
    (
      has-ne 32 (to_string n) (All-imp (λ c h. ground arith) (to_string n) digits),
      All-imp (λ c h. omega arith) (to_string n) digits,
    )

-- The body of a call is read back as its nonce and its parameters.
pub parse_query-body_of :
    (nonce : ℕ) (params : List (Text × Text))
    → ArePlain params
    → parse_query (63 ∷ body_of params nonce) ≡ (text "nonce", to_string nonce) ∷ params
parse_query-body_of nonce params h =
    let plain : ArePlain ((text "nonce", to_string nonce) ∷ params) =
      (((refl, omega arith), to_string-IsPlain nonce), h) in
    (parse_query-form_encode (text "nonce", to_string nonce) params
      (All-imp (λ q k. (k.0.0, k.1.0)) ((text "nonce", to_string nonce) ∷ params) plain)
      (All-imp (λ q k. (k.0.1, k.1.1)) ((text "nonce", to_string nonce) ∷ params) plain)).1

push_some-ArePlain :
    (key : Text) (v : Option Text) (later : List (Text × Text))
    → IsPlain key
    → IsPlainOption v
    → ArePlain later
    → ArePlain (push_some key v later)
push_some-ArePlain key none later k h l = l
push_some-ArePlain key (some v) later k h l = ((k, h), l)

push_if-ArePlain :
    (b : Bool) (key v : Text) (later : List (Text × Text))
    → IsPlain key
    → IsPlain v
    → ArePlain later
    → ArePlain (push_if b key v later)
push_if-ArePlain true key v later k h l = ((k, h), l)
push_if-ArePlain false key v later k h l = l

expiry_params-ArePlain : (e : Option ℕ) → ArePlain (expiry_params e)
unfolding expiry_params
expiry_params-ArePlain none = tt
expiry_params-ArePlain (some secs) =
    let (spaces, bytes) = to_string-IsPlain secs in
    (
      ((refl, omega arith), (refl, omega arith)),
      (((refl, omega arith), (spaces, (omega arith, bytes))), tt),
    )

value_of-push_some :
    (k key : Text) (v : Option Text) (later : List (Text × Text))
    → value_of k (push_some key v later)
      ≡ (if same key k then or_else v (value_of k later) else value_of k later)
value_of-push_some k key none later = ground arith
value_of-push_some k key (some v) later = ground arith

value_of-push_if :
    (k : Text) (b : Bool) (key v : Text) (later : List (Text × Text))
    → value_of k (push_if b key v later)
      ≡ (if same key k then (if b then some v else value_of k later) else value_of k later)
value_of-push_if k true key v later = ground arith
value_of-push_if k false key v later = ground arith

value_of-expiry_params :
    (k : Text) (e : Option ℕ)
    → value_of k (expiry_params e) ≡ (
        if same (text "timeinforce") k
        then Option.map (λ secs. text "GTD") e
        else if same (text "expiretm") k
        then Option.map (λ secs. b'+' ∷ to_string secs) e
        else none)
unfolding expiry_params
value_of-expiry_params k none = ground arith
value_of-expiry_params k (some secs) = refl

or_else-none {ℓ} : {A : Type ℓ} (o : Option A) → or_else o none ≡ o
or_else-none none = refl
or_else-none (some a) = refl

ruleset values = (value_of-push_some, value_of-push_if, value_of-expiry_params, or_else-none)

-- What the parameters of a body say of an order.
abbrev pub SaysOrder :
    List (Text × Text) → ℕ → Text → Text → Text → Text → Option Text → KrakenOrderOptions → Type 0
SaysOrder fields nonce pair side order_type volume price opts =
    (value_of (text "nonce") fields ≡ some (to_string nonce))
    × (value_of (text "pair") fields ≡ some pair)
    × (value_of (text "type") fields ≡ some side)
    × (value_of (text "ordertype") fields ≡ some order_type)
    × (value_of (text "volume") fields ≡ some volume)
    × (value_of (text "price") fields ≡ price)
    × (value_of (text "oflags") fields ≡ (if opts.post_only then some (text "post") else none))
    × (value_of (text "validate") fields ≡ (if opts.validate then some (text "true") else none))
    × (value_of (text "cl_ord_id") fields ≡ opts.client_order_id)
    × (value_of (text "timeinforce") fields
        ≡ Option.map (λ secs. text "GTD") opts.expire_after_secs)
    × (value_of (text "expiretm") fields
        ≡ Option.map (λ secs. b'+' ∷ to_string secs) opts.expire_after_secs)

-- The body of an order of `place_order_with` says, under the keys of Kraken's documentation, what the
-- caller asked for: the nonce, the pair, side, type and volume, the price if there is one, and each
-- flag exactly when its option is set, whatever the other options are. The texts that the caller
-- gives must be bytes without spaces.
pub place_order_with-parse_query :
    (nonce : ℕ) (pair side order_type volume : Text) (price : Option Text)
    (opts : KrakenOrderOptions)
    → All IsPlain (pair ∷ side ∷ order_type ∷ volume ∷ [])
    → IsPlainOption price
    → IsPlainOption opts.client_order_id
    → SaysOrder
        (parse_query
          (63 ∷ body_of (place_order_with pair side order_type volume price opts).1 nonce))
        nonce
        pair
        side
        order_type
        volume
        price
        opts
unfolding place_order_with
place_order_with-parse_query nonce pair side order_type volume price opts (p, (s, (o, (v, _)))) pp
      pid =
    subst (λ fields. SaysOrder fields nonce pair side order_type volume price opts)
      (sym (
        parse_query-body_of nonce (place_order_with pair side order_type volume price opts).1 (
          ((refl, omega arith), p),
          (
            ((refl, omega arith), s),
            (
              ((refl, omega arith), o),
              (
                ((refl, omega arith), v),
                push_some-ArePlain (text "price") price _ (refl, omega arith) pp
                    (push_if-ArePlain opts.post_only (text "oflags") (text "post") _
                      (refl, omega arith) (refl, omega arith)
                      (push_if-ArePlain opts.validate (text "validate") (text "true") _
                        (refl, omega arith) (refl, omega arith)
                        (push_some-ArePlain (text "cl_ord_id") opts.client_order_id _
                          (refl, omega arith) pid
                          (expiry_params-ArePlain opts.expire_after_secs)))),
              ),
            ),
          ),
        )))
      (
        refl,
        refl,
        refl,
        refl,
        refl,
        simp values,
        simp values,
        simp values,
        simp values,
        simp values,
        simp values,
      )
