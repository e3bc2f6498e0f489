-- ===== src/Rest/Kraken/Pages.antt =====
-- What the map visitors of src/kraken/rest.rs make of an object, whatever the order of its entries.
use exchange_apiws.Prelude.{
  false, Option, none, some, List, [], ◌∷◌, ◌++◌, ◌≡◌, sym, ap, fun_ext, ◌∙◌, arith,
}
use exchange_apiws.Prelude.Text.{Text, text, same}
use exchange_apiws.Prelude.Options.{◌>>=◌, unwrap_or}
use exchange_apiws.Rest.Kraken.{Found, read_entry, read_entries, split_pair_keyed}

module _ {V Row Cursor : Type 0} (rows_of : V → Option (List Row))
    (cursor_of : V → Option Cursor) where
  -- An entry under the name of a pair and one under `last` may be read in either order.
  read_entry-read_entry :
      (found : Found Row Cursor) (p : Text) (r c : V)
      → same p (text "last") ≡ false
      → (read_entry rows_of cursor_of found (p, r) >>= λ next.
          read_entry rows_of cursor_of next (text "last", c))
        ≡ (read_entry rows_of cursor_of found (text "last", c) >>= λ next.
            read_entry rows_of cursor_of next (p, r))
  unfolding read_entry
  read_entry-read_entry found p r c e = ground arith

  read_entries-cons :
      (found : Found Row Cursor) (e : Text × V) (es : List (Text × V))
      → read_entries rows_of cursor_of found (e ∷ es)
        ≡ (read_entry rows_of cursor_of found e >>= λ next. read_entries rows_of cursor_of next es)
  unfolding read_entries
  read_entries-cons found e es = ground arith

  read_entries-cons-cons :
      (found : Found Row Cursor) (e f : Text × V) (es : List (Text × V))
      → read_entries rows_of cursor_of found (e ∷ f ∷ es) ≡ (
          (read_entry rows_of cursor_of found e >>= λ next. read_entry rows_of cursor_of next f)
          >>= λ next. read_entries rows_of cursor_of next es)
  unfolding read_entries
  read_entries-cons-cons found e f es = ground arith

  read_entries-swap :
      (found : Found Row Cursor) (xs ys : List (Text × V)) (p : Text) (r c : V)
      → same p (text "last") ≡ false
      → read_entries rows_of cursor_of found (xs ++ (p, r) ∷ (text "last", c) ∷ ys)
        ≡ read_entries rows_of cursor_of found (xs ++ (text "last", c) ∷ (p, r) ∷ ys)
  read_entries-swap found [] ys p r c e =
      read_entries-cons-cons found (p, r) (text "last", c) ys
      ∙ ap (λ o. o >>= λ next. read_entries rows_of cursor_of next ys)
          (read_entry-read_entry found p r c e)
      ∙ sym (read_entries-cons-cons found (text "last", c) (p, r) ys)
  read_entries-swap found (x ∷ xs) ys p r c e =
      read_entries-cons found x (xs ++ (p, r) ∷ (text "last", c) ∷ ys)
      ∙ ap (λ g. read_entry rows_of cursor_of found x >>= g)
          (fun_ext λ next. read_entries-swap next xs ys p r c e)
      ∙ sym (read_entries-cons found x (xs ++ (text "last", c) ∷ (p, r) ∷ ys))

  -- A page of Kraken reads the same wherever its cursor stands: moving the entry `last` past an entry
  -- of another name changes nothing, errors included. A page of one pair and its cursor gives that
  -- pair, its rows and the cursor exactly when both decode, and a page without a cursor, or with
  -- nothing but a cursor, gives none.
  pub split_pair_keyed-order :
      (xs ys : List (Text × V)) (p : Text) (r c : V)
      → same p (text "last") ≡ false
      → (split_pair_keyed rows_of cursor_of (xs ++ (p, r) ∷ (text "last", c) ∷ ys)
          ≡ split_pair_keyed rows_of cursor_of (xs ++ (text "last", c) ∷ (p, r) ∷ ys))
        × (split_pair_keyed rows_of cursor_of ((p, r) ∷ (text "last", c) ∷ [])
            ≡ (rows_of r >>= λ rows. cursor_of c >>= λ last. some (p, rows, last)))
        × (split_pair_keyed rows_of cursor_of ((p, r) ∷ []) ≡ none)
        × (split_pair_keyed rows_of cursor_of ((text "last", c) ∷ []) ≡ none)
  unfolding split_pair_keyed
  split_pair_keyed-order xs ys p r c e = (
    ap
        (λ o. o >>= λ found.
          found.pair >>= λ pair. found.last >>= λ last. some (pair, unwrap_or found.rows [], last))
        (read_entries-swap (record { pair = none; rows = none; last = none }) xs ys p r c e),
    unfold read_entries read_entry in ground arith,
    unfold read_entries read_entry in ground arith,
    unfold read_entries read_entry in ground arith,
  )
