-- ===== src/Prelude/Text.antt =====
-- Text as the list of its bytes, with the operations of Rust's `str` that the sources use.
use Prim.Native.Char.{code}
use Prim.Native.String.{String}
use exchange_apiws.Prelude.Tests.{leb, ltb, ◌==◌, if◌then◌else◌}
use Prim.Native.Nat.{ℕ, zero, suc, ◌+◌, ◌/◌, ◌%◌}
use mathlib.Core.Bool.{Bool, true, false, ◌&&◌, ◌||◌}
use mathlib.Core.Path.{◌≡◌, refl}
use native.Mathlib.Omega.{arith}
use mathlib.Core.List.{List, [], ◌∷◌, map, reverse}
use mathlib.Core.Option.{Option, none, some}

abbrev pub Text : Type 0
Text = List ℕ

-- The characters of a literal: its bytes, if it is ASCII.
abbrev pub text : String → Text
text String.[] = []
text (String.◌∷◌ c s) = code c ∷ text s

abbrev pub same : Text → Text → Bool
same [] [] = true
same [] (y ∷ ys) = false
same (x ∷ xs) [] = false
same (x ∷ xs) (y ∷ ys) = (x == y) && same xs ys

abbrev pub one_of : Text → List Text → Bool
one_of s [] = false
one_of s (t ∷ ts) = same s t || one_of s ts

abbrev pub starts_with : Text → Text → Bool
starts_with [] ys = true
starts_with (x ∷ xs) [] = false
starts_with (x ∷ xs) (y ∷ ys) = (x == y) && starts_with xs ys

-- `haystack.contains(needle)`, the needle first.
abbrev pub contains : Text → Text → Bool
contains needle [] = starts_with needle []
contains needle (y ∷ ys) = starts_with needle (y ∷ ys) || contains needle ys

abbrev pub lower : ℕ → ℕ
lower c = if leb 65 c && leb c 90 then c + 32 else c

abbrev pub to_ascii_lowercase : Text → Text
to_ascii_lowercase s = map lower s

abbrev pub eq_ignore_ascii_case : Text → Text → Bool
eq_ignore_ascii_case s t = same (to_ascii_lowercase s) (to_ascii_lowercase t)

abbrev pub has : ℕ → Text → Bool
has c [] = false
has c (x ∷ xs) = (x == c) || has c xs

-- The decimal digits of a number below 10 to the fuel, the last first.
abbrev pub digits : ℕ → ℕ → Text
digits zero n = []
digits (suc fuel) n =
    let rest = digits fuel (n / 10) in if ltb n 10 then (48 + n) ∷ [] else (48 + n % 10) ∷ rest

-- `n.to_string()` of a u64, which has at most 20 digits.
abbrev pub to_string : ℕ → Text
to_string n = reverse (digits 20 n)

-- `s.split(c).next_back()`: what follows the last `c`, or all of `s`.
abbrev pub after_last : ℕ → Text → Text
after_last c [] = []
after_last c (x ∷ xs) = let rest = after_last c xs in if has c (x ∷ xs) then rest else x ∷ xs

-- `s.split_once(c)`.
abbrev pub split_once : ℕ → Text → Option (Text × Text)
split_once c [] = none
split_once c (x ∷ xs) =
    let rest = split_once c xs in
    if x == c then some ([], xs) else elim rest [ none ↦ none | some (a, b) ↦ some (x ∷ a, b) ]

pub same_refl : (s : Text) → same s s ≡ true
same_refl [] = refl
same_refl (x ∷ xs) = ground (arith, same_refl xs)

pub eq_of_same : (s t : Text) → same s t ≡ true → s ≡ t
eq_of_same [] [] h = refl
eq_of_same [] (y ∷ t) h = cc
eq_of_same (x ∷ s) [] h = cc
eq_of_same (x ∷ s) (y ∷ t) h = ground (arith, eq_of_same s t)
