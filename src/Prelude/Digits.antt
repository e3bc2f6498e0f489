-- ===== src/Prelude/Digits.antt =====
-- The characters of a printed number.
use exchange_apiws.Prelude.Tests.{ltb, Bool-cases, ◌==◌}
use exchange_apiws.Prelude.Lists.{All, All-append}
use Prim.Native.Nat.{ℕ, zero, suc, ◌/◌, ◌≤◌}
use mathlib.Core.Path.{◌≡◌, refl, sym, subst}
use mathlib.Core.Logic.{inl, inr}
use mathlib.Core.Bool.{false}
use mathlib.Core.List.{List, [], ◌∷◌, reverse, reverse-append}
use native.Mathlib.Omega.{arith}
use exchange_apiws.Prelude.Text.{Text, digits, to_string, has}

abbrev pub IsDigit : ℕ → Type 0
IsDigit c = (48 ≤ c) × (c ≤ 57)

All-reverse {κ} : (P : ℕ → Type κ) (xs : List ℕ) → All P xs → All P (reverse xs)
All-reverse P [] h = tt
All-reverse P (x ∷ xs) h =
    subst (λ l. All P l) (sym (reverse-append (x ∷ []) xs))
      (All-append P (reverse xs) (x ∷ []) (All-reverse P xs h.1) (h.0, tt))

digits-IsDigit : (fuel n : ℕ) → All IsDigit (digits fuel n)
digits-IsDigit zero n = tt
digits-IsDigit (suc fuel) n = elim (Bool-cases (ltb n 10)) [
  | inl one ↦ rw one ((omega arith, ground arith), tt)
  | inr more ↦ rw more ((omega arith, omega arith), digits-IsDigit fuel (n / 10))
]

pub to_string-IsDigit : (n : ℕ) → All IsDigit (to_string n)
to_string-IsDigit n = All-reverse IsDigit (digits 20 n) (digits-IsDigit 20 n)

pub has-ne : (c : ℕ) (s : Text) → All (λ x. (x == c) ≡ false) s → has c s ≡ false
has-ne c [] h = refl
has-ne c (x ∷ s) h = rw (h.0, has-ne c s h.1) refl
