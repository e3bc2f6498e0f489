-- ===== src/Signing/Reorder.antt =====
-- The signature of src/cryptocom/auth.rs does not depend on the order of an object's fields.
use exchange_apiws.Prelude.{List, ◌≡◌, ◌≢◌, refl, ◌∙◌, ap, arith}
use exchange_apiws.Prelude.Order.{Ord}
use exchange_apiws.Prelude.SortedMap
use exchange_apiws.Prelude.SortedMap.Laws.{IsSorted, insert-IsSorted, IsSorted-ext, get-insert}
use exchange_apiws.Prelude.Text.{Text}
use exchange_apiws.Prelude.Int.{ℤ}
use exchange_apiws.Signing.Params.{
  text_ord, Param, arr, obj, Params, nil, cons, Fields, end, field, build_params_string,
  items_string, sorted_entries, labelled, sign_payload,
}

module _ {ℓ κ} {K : Type ℓ} {V : Type κ} ⦃o : Ord K⦄ where
  -- Entries under different keys may be inserted in either order.
  insert-insert :
      (k j : K) (v w : V) (m : List (K × V))
      → k ≢ j
      → IsSorted m
      → SortedMap.insert k v (SortedMap.insert j w m)
        ≡ SortedMap.insert j w (SortedMap.insert k v m)
  insert-insert k j v w m ne s =
      IsSorted-ext (SortedMap.insert k v (SortedMap.insert j w m))
        (SortedMap.insert j w (SortedMap.insert k v m))
        (insert-IsSorted k v (SortedMap.insert j w m) (insert-IsSorted j w m s))
        (insert-IsSorted j w (SortedMap.insert k v m) (insert-IsSorted k v m s))
        λ p. ground (
          arith,
          get-insert p k v (SortedMap.insert j w m),
          get-insert p j w m,
          get-insert p j w (SortedMap.insert k v m),
          get-insert p k v m,
          o.eq_of_cmp p k,
          o.eq_of_cmp p j,
        )

-- The same value up to the order of the fields of its objects, at any depth.
mutual
  pub data Reordered : Param → Param → Type 0 where
    same : {p : Param} → Reordered p p
    items : {ps qs : Params} → ReorderedItems ps qs → Reordered (arr ps) (arr qs)
    fields : {fs gs : Fields} → ReorderedFields fs gs → Reordered (obj fs) (obj gs)

  pub data ReorderedItems : Params → Params → Type 0 where
    none_left : ReorderedItems nil nil
    item :
        {p q : Param} {ps qs : Params}
        → Reordered p q
        → ReorderedItems ps qs
        → ReorderedItems (cons p ps) (cons q qs)

  pub data ReorderedFields : Fields → Fields → Type 0 where
    no_fields : ReorderedFields end end
    keep :
        {k : Text} {p q : Param} {fs gs : Fields}
        → Reordered p q
        → ReorderedFields fs gs
        → ReorderedFields (field k p fs) (field k q gs)
    swap :
        {k j : Text} {p q : Param} {fs : Fields}
        → k ≢ j
        → ReorderedFields (field k p (field j q fs)) (field j q (field k p fs))
    join_up :
        {fs gs hs : Fields} → ReorderedFields fs gs → ReorderedFields gs hs → ReorderedFields fs hs

sorted_entries-IsSorted : (fs : Fields) → IsSorted (sorted_entries fs)
unfolding build_params_string items_string sorted_entries
sorted_entries-IsSorted end = tt
sorted_entries-IsSorted (field k p fs) =
    insert-IsSorted k (build_params_string p) (sorted_entries fs) (sorted_entries-IsSorted fs)

mutual
  unfolding build_params_string items_string sorted_entries

  build-Reordered : {p q : Param} → Reordered p q → build_params_string p ≡ build_params_string q
  build-Reordered same = refl
  build-Reordered (items r) = items-Reordered r
  build-Reordered (fields r) = ap labelled (entries-Reordered r)

  items-Reordered : {ps qs : Params} → ReorderedItems ps qs → items_string ps ≡ items_string qs
  items-Reordered none_left = refl
  items-Reordered (item r rs) = rw (build-Reordered r, items-Reordered rs) refl

  entries-Reordered :
      {fs gs : Fields} → ReorderedFields fs gs → sorted_entries fs ≡ sorted_entries gs
  entries-Reordered no_fields = refl
  entries-Reordered (keep r rs) = rw (build-Reordered r, entries-Reordered rs) refl
  entries-Reordered (swap {k} {j} {p} {q} {fs} ne) =
      insert-insert k j (build_params_string p) (build_params_string q) (sorted_entries fs) ne
        (sorted_entries-IsSorted fs)
  entries-Reordered (join_up r t) = entries-Reordered r ∙ entries-Reordered t

-- The text that is signed is the same for parameters that differ only in the order in which their
-- objects' fields were written, at any depth.
pub sign_payload-Reordered :
    {p q : Param} (method : Text) (id : ℤ) (api_key : Text) (nonce : ℤ)
    → Reordered p q
    → sign_payload method id api_key p nonce ≡ sign_payload method id api_key q nonce
unfolding sign_payload
sign_payload-Reordered method id api_key nonce r = rw (build-Reordered r) refl
