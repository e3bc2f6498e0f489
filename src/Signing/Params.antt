-- ===== src/Signing/Params.antt =====
-- src/cryptocom/auth.rs: the text that the parameters of a request are signed by.
use Prim.Native.Nat.Ordering.{lt, eq, gt}
use exchange_apiws.Prelude.{
  Bool, true, false, List, [], ◌∷◌, ◌++◌, ◌≡◌, refl, arith, compare, Ordering,
}
use exchange_apiws.Prelude.Order.{IsTotal, Ord}
use exchange_apiws.Prelude.SortedMap
use exchange_apiws.Prelude.Text.{Text, text}
use exchange_apiws.Prelude.Int.{ℤ}
use exchange_apiws.Streams.{to_string_i64}

-- The order of texts by their bytes.
abbrev pub compare_text : Text → Text → Ordering
compare_text [] [] = eq
compare_text [] (y ∷ ys) = lt
compare_text (x ∷ xs) [] = gt
compare_text (x ∷ xs) (y ∷ ys) =
    let rest = compare_text xs ys in elim (compare x y) [ lt ↦ lt | eq ↦ rest | gt ↦ gt ]

text_lt_trans :
    (x y z : Text) → compare_text x y ≡ lt → compare_text y z ≡ lt → compare_text x z ≡ lt
text_lt_trans [] [] z h k = cc
text_lt_trans [] (y ∷ ys) [] h k = cc
text_lt_trans [] (y ∷ ys) (z ∷ zs) h k = refl
text_lt_trans (x ∷ xs) [] z h k = cc
text_lt_trans (x ∷ xs) (y ∷ ys) [] h k = cc
text_lt_trans (x ∷ xs) (y ∷ ys) (z ∷ zs) h k = ground (arith, text_lt_trans xs ys zs)

text_gt_of_lt : (x y : Text) → compare_text x y ≡ lt → compare_text y x ≡ gt
text_gt_of_lt [] [] h = cc
text_gt_of_lt [] (y ∷ ys) h = refl
text_gt_of_lt (x ∷ xs) [] h = cc
text_gt_of_lt (x ∷ xs) (y ∷ ys) h = ground (arith, text_gt_of_lt xs ys)

text_cmp_refl : (x : Text) → compare_text x x ≡ eq
text_cmp_refl [] = refl
text_cmp_refl (x ∷ xs) = ground (arith, text_cmp_refl xs)

text_lt_of_gt : (x y : Text) → compare_text x y ≡ gt → compare_text y x ≡ lt
text_lt_of_gt [] [] h = cc
text_lt_of_gt [] (y ∷ ys) h = cc
text_lt_of_gt (x ∷ xs) [] h = refl
text_lt_of_gt (x ∷ xs) (y ∷ ys) h = ground (arith, text_lt_of_gt xs ys)

text_eq_of_cmp : (x y : Text) → compare_text x y ≡ eq → x ≡ y
text_eq_of_cmp [] [] h = refl
text_eq_of_cmp [] (y ∷ ys) h = cc
text_eq_of_cmp (x ∷ xs) [] h = cc
text_eq_of_cmp (x ∷ xs) (y ∷ ys) h = ground (arith, text_eq_of_cmp xs ys)

pub compare_text-IsTotal : IsTotal compare_text
compare_text-IsTotal = record {
  lt_trans = text_lt_trans;
  gt_of_lt = text_gt_of_lt;
  cmp_refl = text_cmp_refl;
  lt_of_gt = text_lt_of_gt;
  eq_of_cmp = text_eq_of_cmp;
}

instance abbrev pub text_ord : Ord Text
text_ord = record { cmp = compare_text; total = compare_text-IsTotal }

-- The parameters of a request: JSON, with its numbers as they print.
mutual
  pub data Param : Type 0 where
    null : Param
    bool : Bool → Param
    num : Text → Param
    str : Text → Param
    arr : Params → Param
    obj : Fields → Param

  pub data Params : Type 0 where
    nil : Params
    cons : Param → Params → Params

  -- The fields of an object have different keys.
  pub data Fields : Type 0 where
    end : Fields
    field : Text → Param → Fields → Fields

-- The labels and values of an object, in the order of its keys.
abbrev pub labelled : List (Text × Text) → Text
labelled [] = []
labelled ((k, s) ∷ entries) = k ++ (s ++ labelled entries)

abbrev pub bool_text : Bool → Text
bool_text true = text "true"
bool_text false = text "false"

-- `append_value`, whose output is what it appends.
unfoldable mutual
  pub build_params_string : Param → Text
  build_params_string null = []
  build_params_string (bool b) = bool_text b
  build_params_string (num n) = n
  build_params_string (str s) = s
  build_params_string (arr ps) = items_string ps
  build_params_string (obj fs) = labelled (sorted_entries fs)

  pub items_string : Params → Text
  items_string nil = []
  items_string (cons p ps) = build_params_string p ++ items_string ps

  pub sorted_entries : Fields → List (Text × Text)
  sorted_entries end = []
  sorted_entries (field k p fs) = SortedMap.insert k (build_params_string p) (sorted_entries fs)

-- The text that `sign_cryptocom_request` hashes.
unfoldable pub sign_payload : Text → ℤ → Text → Param → ℤ → Text
sign_payload method id api_key params nonce =
    method ++ (to_string_i64 id ++ (api_key ++ (build_params_string params ++ to_string_i64 nonce)))
