-- ===== src/Runner/Guard/Window.antt =====
-- Sends that stand some places apart, and the window of `WsMsgGuard` of src/ws/runner.rs.
use exchange_apiws.Prelude.{
  ℕ, zero, suc, ◌+◌, ◌-◌, ◌≤◌, ◌<◌, some, List, [], ◌∷◌, ◌++◌, ◌≡◌, refl, ap, ◌⊎◌, inl, inr, arith,
  All, length, get_elem?, ltb, ltb→lt, Bool-cases, subst,
}
use native.Mathlib.Nat.{sub-zero}
use exchange_apiws.Runner.Guard.{WsMsgGuard, drop_old, wait}

-- Elements that stand `n` places apart in the list are at least `dur` apart.
abbrev pub Spaced : ℕ → ℕ → List ℕ → Type 0
Spaced n dur sends =
    (i a b : ℕ) → get_elem? sends i ≡ some a → get_elem? sends (i + n) ≡ some b → a + dur ≤ b

pub get_elem?-append :
    (xs ys : List ℕ) (i : ℕ) {a : ℕ}
    → get_elem? (xs ++ ys) i ≡ some a
    → (get_elem? xs i ≡ some a) ⊎ (length xs ≤ i) × (get_elem? ys (i - length xs) ≡ some a)
get_elem?-append [] ys i {a} h = inr (omega arith, rw sub-zero h)
get_elem?-append (x ∷ xs) ys zero h = inl h
get_elem?-append (x ∷ xs) ys (suc i) {a} h = ground (arith, get_elem?-append xs ys i {a = a})

pub get_elem?-lt : (xs : List ℕ) (i : ℕ) {a : ℕ} → get_elem? xs i ≡ some a → i < length xs
get_elem?-lt [] i h = cc
get_elem?-lt (x ∷ xs) zero h = omega arith
get_elem?-lt (x ∷ xs) (suc i) {a} h = omega (arith, get_elem?-lt xs i {a = a} h)

pub All-get {κ} :
    (P : ℕ → Type κ) (xs : List ℕ) (i : ℕ) {a : ℕ} → All P xs → get_elem? xs i ≡ some a → P a
All-get P [] i h e = cc
All-get P (x ∷ xs) zero h e = subst P (cc) h.0
All-get P (x ∷ xs) (suc i) {a} h e = All-get P xs i {a = a} h.1 e

pub get_elem?-single : (x j : ℕ) {b : ℕ} → get_elem? (x ∷ []) j ≡ some b → (j ≡ 0) × (x ≡ b)
get_elem?-single x zero h = (refl, cc)
get_elem?-single x (suc j) h = cc

-- One more send keeps the spacing, if it comes late enough after the send `n` places before it.
pub Spaced-snoc :
    (n dur : ℕ) (sends : List ℕ) (x : ℕ)
    → Spaced n dur sends
    → ((i a : ℕ) → get_elem? sends i ≡ some a → i + n ≡ length sends → a + dur ≤ x)
    → 0 < n
    → Spaced n dur (sends ++ x ∷ [])
Spaced-snoc n dur sends x s h pos i a b e f =
    elim (get_elem?-append sends (x ∷ []) (i + n) {a = b} f) [
      | inl f' ↦ elim (get_elem?-append sends (x ∷ []) i {a = a} e) [
        | inl e' ↦ s i a b e' f'
        | inr (far, _) ↦ absurd (omega (arith, get_elem?-lt sends (i + n) {a = b} f'))
      ]
      | inr (end, f') ↦
          let (zeroth, same) = get_elem?-single x (i + n - length sends) {b = b} f' in
          elim (get_elem?-append sends (x ∷ []) i {a = a} e) [
            | inl e' ↦ omega (arith, h i a e' (omega arith))
            | inr (far, _) ↦ absurd (omega arith)
          ]
    ]

-- The first entry, if there is one, is at least `dur` before `t`.
abbrev pub FrontBefore : ℕ → ℕ → List ℕ → Type 0
FrontBefore dur t [] = Unit
FrontBefore dur t (x ∷ xs) = x + dur ≤ t

pub drop_old-length : (dur now : ℕ) (w : List ℕ) → length (drop_old dur now w) ≤ length w
unfolding drop_old
drop_old-length dur now [] = omega arith
drop_old-length dur now (t ∷ w) = ground (arith, drop_old-length dur now w)

pub drop_old-shrinks :
    (dur now last n : ℕ) (w : List ℕ)
    → length w ≤ suc n
    → (length w ≡ suc n → FrontBefore dur last w)
    → last < now
    → length (drop_old dur now w) ≤ n
unfolding drop_old
drop_old-shrinks dur now last n [] size full h = omega arith
drop_old-shrinks dur now last n (t ∷ w) size full h = ground (arith, drop_old-length dur now w)

-- What `drop_old` drops is older than the window, and the rest is a suffix.
pub drop_old-split :
    (dur now : ℕ) (w : List ℕ)
    → (dropped : List ℕ) × (w ≡ dropped ++ drop_old dur now w) × All (λ x. x + dur < now) dropped
unfolding drop_old
drop_old-split dur now [] = ([], refl, tt)
drop_old-split dur now (t ∷ w) = elim (Bool-cases (ltb dur (now - t))) [
  | inl old ↦
      let (dropped, split, all) = drop_old-split dur now w in
      (t ∷ dropped, rw old (ap (λ l. t ∷ l) split), (omega (arith, ltb→lt _ _ old), all))
  | inr young ↦ ([], rw young refl, tt)
]

-- A sleep lasts until the oldest of a full window has left it.
pub wait_lem :
    (g : WsMsgGuard) (now : ℕ) (w : List ℕ)
    → All (λ x. x ≤ now) w
    → g.max_msgs ≤ length w
    → FrontBefore g.window_dur (now + wait g now w) w
unfolding wait
wait_lem g now [] r h = tt
wait_lem g now (t ∷ w) r h = ground arith

pub All-right {κ} : (P : ℕ → Type κ) (xs ys : List ℕ) → All P (xs ++ ys) → All P ys
All-right P [] ys h = h
All-right P (x ∷ xs) ys h = All-right P xs ys h.1

pub front-get :
    (dur t : ℕ) (w : List ℕ) {a : ℕ} → FrontBefore dur t w → get_elem? w 0 ≡ some a → a + dur ≤ t
front-get dur t [] f e = cc
front-get dur t (x ∷ w) f e = subst (λ b. b + dur ≤ t) (cc) f

pub FrontBefore-append :
    (dur t : ℕ) (w : List ℕ) (x : ℕ)
    → 0 < length w
    → FrontBefore dur t w
    → FrontBefore dur t (w ++ x ∷ [])
FrontBefore-append dur t [] x h f = elim h [ ]
FrontBefore-append dur t (y ∷ w) x h f = f
