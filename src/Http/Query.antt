-- ===== src/Http/Query.antt =====
-- A query string of src/http.rs is read back to the parameters that it was built from.
use exchange_apiws.Prelude.{
  ℕ, ◌+◌, ◌*◌, ◌-◌, ◌/◌, ◌%◌, ◌<◌, true, false, List, [], ◌∷◌, ◌++◌, map, ◌≡◌, refl, ap, ◌∙◌, inl,
  inr, arith, All, All-append, All-imp, leb, ◌==◌, if◌then◌else◌, Bool-cases,
}
use exchange_apiws.Prelude.Text.{Text}
use exchange_apiws.Http.{is_unreserved, hex_digit, percent_encode, join, pair, build_query_string}

-- The decoder of RFC 3986: `%` and two digits are a byte.
abbrev pub hex_value : ℕ → ℕ
hex_value c = if leb 65 c then c - 55 else c - 48

abbrev pub percent_decode : Text → Text
percent_decode [] = []
percent_decode (c ∷ []) = c ∷ []
percent_decode (c ∷ d ∷ []) = c ∷ d ∷ []
percent_decode (c ∷ d ∷ e ∷ s) =
    let short = percent_decode (d ∷ e ∷ s) in
    let long = percent_decode s in
    if c == 37 then (hex_value d * 16 + hex_value e) ∷ long else c ∷ short

abbrev pub IsByte : ℕ → Type 0
IsByte b = b < 256

-- Neither `&` nor `=`.
abbrev Clean : ℕ → Type 0
Clean c = ((c == 38) ≡ false) × ((c == 61) ≡ false)

hex_value-hex_digit : (d : ℕ) → d < 16 → hex_value (hex_digit d) ≡ d
unfolding hex_digit
hex_value-hex_digit d h = ground arith

hex_digit-Clean : (d : ℕ) → d < 16 → Clean (hex_digit d)
unfolding hex_digit
hex_digit-Clean d h = ground arith

unreserved_lem : (b : ℕ) → is_unreserved b ≡ true → Clean b × ((b == 37) ≡ false)
unfolding is_unreserved
unreserved_lem b h = ground arith

percent_decode-other :
    (c : ℕ) (s : Text) → (c == 37) ≡ false → percent_decode (c ∷ s) ≡ c ∷ percent_decode s
percent_decode-other c [] h = refl
percent_decode-other c (d ∷ []) h = refl
percent_decode-other c (d ∷ e ∷ s) h = rw h refl

percent_decode-encode : (s : Text) → All IsByte s → percent_decode (percent_encode s) ≡ s
unfolding percent_encode
percent_decode-encode [] h = refl
percent_decode-encode (b ∷ s) h = elim (Bool-cases (is_unreserved b)) [
  | inl plain ↦
      let (_, other) = unreserved_lem b plain in
      rw plain (
        percent_decode-other b (percent_encode s) other
        ∙ ap (λ l. b ∷ l) (percent_decode-encode s h.1))
  | inr coded ↦
      let high = hex_value-hex_digit (b / 16) (omega (arith, h.0)) in
      let low = hex_value-hex_digit (b % 16) (omega (arith, h.0)) in
      let whole : b / 16 * 16 + b % 16 ≡ b = omega arith in
      rw coded (rw (high, low, whole, percent_decode-encode s h.1) refl)
]

percent_encode-Clean : (s : Text) → All IsByte s → All Clean (percent_encode s)
unfolding percent_encode
percent_encode-Clean [] h = tt
percent_encode-Clean (b ∷ s) h = elim (Bool-cases (is_unreserved b)) [
  | inl plain ↦ rw plain ((unreserved_lem b plain).0, percent_encode-Clean s h.1)
  | inr coded ↦ rw coded (
    (refl, refl),
    (
      hex_digit-Clean (b / 16) (omega (arith, h.0)),
      (hex_digit-Clean (b % 16) (omega (arith, h.0)), percent_encode-Clean s h.1),
    ),
  )
]

-- The text before the first separator, and the text after it.
abbrev pub split_at : ℕ → Text → Text × Text
split_at sep [] = ([], [])
split_at sep (c ∷ s) =
    let (before, after) = split_at sep s in if c == sep then ([], s) else (c ∷ before, after)

-- `str::split(sep)`, which always has a first piece.
abbrev pub pieces : ℕ → Text → Text × List Text
pieces sep [] = ([], [])
pieces sep (c ∷ s) =
    let (first, others) = pieces sep s in
    if c == sep then ([], first ∷ others) else (c ∷ first, others)

abbrev pub parse_pair : Text → Text × Text
parse_pair s = let (key, value) = split_at 61 s in (percent_decode key, percent_decode value)

abbrev pub parse_query : Text → List (Text × Text)
parse_query [] = []
parse_query (q ∷ s) = let (first, others) = pieces 38 s in map parse_pair (first ∷ others)

split_at-append :
    (sep : ℕ) (xs ys : Text)
    → All (λ c. (c == sep) ≡ false) xs
    → split_at sep (xs ++ sep ∷ ys) ≡ (xs, ys)
split_at-append sep [] ys h = let e : (sep == sep) ≡ true = ground arith in rw e refl
split_at-append sep (x ∷ xs) ys h = rw (h.0, split_at-append sep xs ys h.1) refl

pieces-append :
    (sep : ℕ) (xs ys : Text)
    → All (λ c. (c == sep) ≡ false) xs
    → pieces sep (xs ++ sep ∷ ys) ≡ (xs, (pieces sep ys).0 ∷ (pieces sep ys).1)
pieces-append sep [] ys h = let e : (sep == sep) ≡ true = ground arith in rw e refl
pieces-append sep (x ∷ xs) ys h = rw (h.0, pieces-append sep xs ys h.1) refl

pieces-last : (sep : ℕ) (xs : Text) → All (λ c. (c == sep) ≡ false) xs → pieces sep xs ≡ (xs, [])
pieces-last sep [] h = refl
pieces-last sep (x ∷ xs) h = rw (h.0, pieces-last sep xs h.1) refl

pair-NoAmp : (k v : Text) → All IsByte k → All IsByte v → All (λ c. (c == 38) ≡ false) (pair (k, v))
unfolding pair
pair-NoAmp k v a b =
    All-append (λ c. (c == 38) ≡ false) (percent_encode k) (61 ∷ percent_encode v)
      (All-imp (λ c h. h.0) (percent_encode k) (percent_encode-Clean k a))
      (refl, All-imp (λ c h. h.0) (percent_encode v) (percent_encode-Clean v b))

parse_pair-pair : (k v : Text) → All IsByte k → All IsByte v → parse_pair (pair (k, v)) ≡ (k, v)
unfolding pair
parse_pair-pair k v a b =
    rw
      (
        split_at-append 61 (percent_encode k) (percent_encode v)
            (All-imp (λ c h. h.1) (percent_encode k) (percent_encode-Clean k a)),
        percent_decode-encode k a,
        percent_decode-encode v b,
      )
      refl

parse-join :
    (p : Text × Text) (params : List (Text × Text))
    → All (λ q. All IsByte q.0 × All IsByte q.1) (p ∷ params)
    → map parse_pair (
        (pieces 38 (join (map pair (p ∷ params)))).0 ∷ (pieces 38 (join (map pair (p ∷ params)))).1)
      ≡ p ∷ params
unfolding join
parse-join (k, v) [] h =
    rw (pieces-last 38 (pair (k, v)) (pair-NoAmp k v h.0.0 h.0.1), parse_pair-pair k v h.0.0 h.0.1)
      refl
parse-join (k, v) (q ∷ params) h =
    rw
      (
        pieces-append 38 (pair (k, v)) (join (map pair (q ∷ params))) (pair-NoAmp k v h.0.0 h.0.1),
        parse_pair-pair k v h.0.0 h.0.1,
      )
      (ap (λ l. (k, v) ∷ l) (parse-join q params h.1))

-- Decoding by RFC 3986, with the pieces separated at `&` and at the first `=`, gives back every list
-- of parameters, in order, from the query string built from it, whatever bytes they hold.
pub parse_query-build_query_string :
    (params : List (Text × Text))
    → All (λ p. All IsByte p.0 × All IsByte p.1) params
    → parse_query (build_query_string params) ≡ params
unfolding build_query_string
parse_query-build_query_string [] h = refl
parse_query-build_query_string (p ∷ params) h = parse-join p params h
