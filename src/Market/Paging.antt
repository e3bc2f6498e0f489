-- ===== src/Market/Paging.antt =====
-- The windows that fetch_klines_extended of src/rest/market.rs asks for, and the candles it keeps.
use exchange_apiws.Prelude.{
  ℕ, suc, ◌+◌, ◌-◌, ◌*◌, ◌≤◌, ◌<◌, ◌^◌, List, [], ◌∷◌, ◌++◌, ◌≡◌, refl, ◌∙◌, ap, subst, sym, arith,
  ◌⊎◌, inl, inr, All, Bool-cases, leb, lt→ltb, length, length-append,
}
use exchange_apiws.Prelude.Int.{ℤ, pos, pos_part, ◌-ℤ◌, ◌≤ℤ◌}
use exchange_apiws.Prelude.Options.{filter_map}
use exchange_apiws.Error.{ExchangeError}
use exchange_apiws.Types.Candle.{Candle}
use exchange_apiws.Market.{
  Window, wrap_i64, bar_ms, window, next_end, pages, batch_of, sort_by_time, to_option,
}

wrap_i64-pos : (n : ℕ) → n < 2 ^ 63 → wrap_i64 (pos n) ≡ pos n
unfolding wrap_i64
wrap_i64-pos n h = ground arith

pos-sub : (a b : ℕ) → b ≤ a → pos a -ℤ pos b ≡ pos (a - b)
unfolding ◌-ℤ◌
pos-sub a b h = ground arith

bar_ms-pos : (g : ℕ) → g * 60000 < 2 ^ 63 → bar_ms (pos g) ≡ pos (g * 60000)
unfolding bar_ms
bar_ms-pos g h = wrap_i64-pos (g * 60000) h

-- A window of past times, with no overflow.
window_exact :
    (g batch end : ℕ)
    → g * 60000 * batch ≤ end
    → g * 60000 < 2 ^ 63
    → batch < 2 ^ 63
    → end < 2 ^ 63
    → window (pos g) batch (pos end)
      ≡ record { from_ms = pos (end - g * 60000 * batch); to_ms = pos end }
unfolding window
window_exact g batch end h b k e =
    let span : g * 60000 * batch < 2 ^ 63 = omega arith in
    let start : end - g * 60000 * batch < 2 ^ 63 = omega arith in
    rw
      (
        bar_ms-pos g b,
        lt→ltb batch (2 ^ 63) k,
        wrap_i64-pos (g * 60000 * batch) span,
        pos-sub end (g * 60000 * batch) h,
        wrap_i64-pos (end - g * 60000 * batch) start,
      )
      refl

next_end_exact :
    (g from : ℕ) (to : ℤ)
    → g * 60000 ≤ from
    → from < 2 ^ 63
    → next_end (pos g) (record { from_ms = pos from; to_ms = to }) ≡ pos (from - g * 60000)
unfolding next_end
next_end_exact g from to h b =
    let bar : g * 60000 < 2 ^ 63 = omega arith in
    let start : from - g * 60000 < 2 ^ 63 = omega arith in
    rw (bar_ms-pos g bar, pos-sub from (g * 60000) h, wrap_i64-pos (from - g * 60000) start) refl

-- A time that a page asks for.
abbrev pub Covers : ℕ → Window → Type 0
Covers t w = (w.from_ms ≤ℤ pos t) × (pos t ≤ℤ w.to_ms)

-- The windows go back in time, each a bar before the one above it.
abbrev Descending : ℕ → ℕ → List Window → Type 0
Descending bar end [] = Unit
Descending bar end (w ∷ ws) =
    (from : ℕ) × (w ≡ record { from_ms = pos from; to_ms = pos end })
    × (from ≤ end)
    × ((ws ≡ []) ⊎ ((bar ≤ from) × Descending bar (from - bar) ws))

Covers-bounds :
    (t from end : ℕ) (w : Window)
    → w ≡ record { from_ms = pos from; to_ms = pos end }
    → Covers t w
    → (from ≤ t) × (t ≤ end)
Covers-bounds t from end w e c = let c' = subst (Covers t) e c in omega arith

-- Below the end of a descending list nothing later is covered.
Descending-above :
    (bar end t : ℕ) (ws : List Window)
    → Descending bar end ws
    → end < t
    → All (λ w. Covers t w → ⊥) ws
Descending-above bar end t [] d h = tt
Descending-above bar end t (w ∷ ws) (from, e, le, inl last) h =
    (λ c. absurd (omega (arith, Covers-bounds t from end w e c)), rw last tt)
Descending-above bar end t (w ∷ ws) (from, e, le, inr (room, d)) h = (
  λ c. absurd (omega (arith, Covers-bounds t from end w e c)),
  Descending-above bar (from - bar) t ws d (omega arith),
)

-- Between two neighbours of a descending list lies a bar that no window covers.
Descending-hole :
    (bar end f t : ℕ) (before : List Window) (w u : Window) (after : List Window)
    → Descending bar end (before ++ w ∷ u ∷ after)
    → w.from_ms ≡ pos f
    → t < f
    → f < t + bar
    → (u.to_ms ≡ pos (f - bar)) × (f ≤ end) × All (λ x. Covers t x → ⊥) (before ++ w ∷ u ∷ after)
Descending-hole bar end f t [] w u after (from, e, le, inl last) q lt near = absurd (cc)
Descending-hole bar end f t [] w u after (from, e, le, inr (room, d)) q lt near =
    let same : f ≡ from = ap pos_part (sym q ∙ ap (λ (x : Window). x.from_ms) e) in
    let (from', e', le', rest) = d in
    (
      rw same (ap (λ (x : Window). x.to_ms) e'),
      omega arith,
      (
        λ c. absurd (omega (arith, Covers-bounds t from end w e c)),
        Descending-above bar (from - bar) t (u ∷ after) d (omega arith),
      ),
    )
Descending-hole bar end f t (x ∷ before) w u after (from, e, le, inl last) q lt near =
    absurd (omega (arith, ap length last, length-append before (w ∷ u ∷ after)))
Descending-hole bar end f t (x ∷ before) w u after (from, e, le, inr (room, d)) q lt near =
    let (to, below, holes) = Descending-hole bar (from - bar) f t before w u after d q lt near in
    (to, omega arith, (λ c. absurd (omega (arith, Covers-bounds t from end x e c)), holes))

mul_mono : (k m n : ℕ) → m ≤ n → k * m ≤ k * n
mul_mono k m n h = grind arith

mul_suc : (k n : ℕ) → k * suc n ≡ k + k * n
mul_suc k n = grind arith

-- Room for one page less.
room_left :
    (bar size rounds end batch : ℕ)
    → (bar * size + bar) * suc rounds ≤ end
    → batch ≤ size
    → (bar * batch + bar ≤ end) × ((bar * size + bar) * rounds ≤ end - bar * batch - bar)
room_left bar size rounds end batch h le =
    let steps = mul_suc (bar * size + bar) rounds in
    (
      omega (arith, steps, mul_mono bar batch size le),
      omega (arith, steps, mul_mono bar batch size le),
    )

module _ {R F : Type 0} (read : R → ExchangeError ⊎ Candle F) (total page_size g : ℕ) where
  page_exact :
      (end : ℕ) (all : List (Candle F))
      → g * 60000 * batch_of read total page_size (pos g) all + g * 60000 ≤ end
      → end < 2 ^ 63
      → page_size < 2 ^ 63
      → window (pos g) (batch_of read total page_size (pos g) all) (pos end) ≡ record {
        from_ms = pos (end - g * 60000 * batch_of read total page_size (pos g) all);
        to_ms = pos end;
      }
  unfolding batch_of
  page_exact end all room b k =
      let batch = batch_of read total page_size (pos g) all in
      let span : g * 60000 * batch ≤ end = omega arith in
      let bar : g * 60000 < 2 ^ 63 = omega arith in
      let small : batch < 2 ^ 63 = omega arith in window_exact g batch end span bar small b

  batch_of-le : (all : List (Candle F)) → batch_of read total page_size (pos g) all ≤ page_size
  unfolding batch_of
  batch_of-le all = omega arith

  -- The last page asked for, alone.
  last_page :
      (rounds end : ℕ) (all : List (Candle F))
      → (g * 60000 * page_size + g * 60000) * suc rounds ≤ end
      → end < 2 ^ 63
      → page_size < 2 ^ 63
      → Descending
          (g * 60000)
          end
          (window (pos g) (batch_of read total page_size (pos g) all) (pos end) ∷ [])
  last_page rounds end all room b k =
      let batch = batch_of read total page_size (pos g) all in
      let (fits, _) = room_left (g * 60000) page_size rounds end batch room (batch_of-le all) in
      (end - g * 60000 * batch, page_exact end all fits b k, omega arith, inl refl)

  -- A page and those after it.
  page_then :
      (rounds end : ℕ) (all : List (Candle F)) (ws : List Window)
      → (g * 60000 * page_size + g * 60000) * suc rounds ≤ end
      → end < 2 ^ 63
      → page_size < 2 ^ 63
      → ((end' : ℕ)
          → next_end (pos g) (window (pos g) (batch_of read total page_size (pos g) all) (pos end))
            ≡ pos end'
          → (g * 60000 * page_size + g * 60000) * rounds ≤ end'
          → end' < 2 ^ 63
          → Descending (g * 60000) end' ws)
      → Descending
          (g * 60000)
          end
          (window (pos g) (batch_of read total page_size (pos g) all) (pos end) ∷ ws)
  page_then rounds end all ws room b k rest =
      let batch = batch_of read total page_size (pos g) all in
      let (fits, left) = room_left (g * 60000) page_size rounds end batch room (batch_of-le all) in
      let exact = page_exact end all fits b k in
      let from = end - g * 60000 * batch in
      let after =
        rest (from - g * 60000)
          (ap (next_end (pos g)) exact
            ∙ next_end_exact g from (pos end) (omega arith) (omega arith))
          left (omega arith) in
      (from, exact, omega arith, inr (omega arith, after))

  pages-Descending :
      (replies : List (ExchangeError ⊎ List R)) (end : ℕ) (all : List (Candle F))
      → (g * 60000 * page_size + g * 60000) * suc (length replies) ≤ end
      → end < 2 ^ 63
      → page_size < 2 ^ 63
      → Descending (g * 60000) end (pages read total page_size (pos g) replies (pos end) all).0
  unfolding pages
  pages-Descending [] end all room b k = elim (Bool-cases (leb total (length all))) [
    | inl done ↦ rw done tt
    | inr more ↦ rw more (last_page 0 end all room b k)
  ]
  pages-Descending (inl e ∷ replies) end all room b k = elim (Bool-cases (leb total (length all))) [
    | inl done ↦ rw done tt
    | inr more ↦ rw more (last_page (suc (length replies)) end all room b k)
  ]
  pages-Descending (inr [] ∷ replies) end all room b k =
      elim (Bool-cases (leb total (length all))) [
        | inl done ↦ rw done tt
        | inr more ↦ rw more (last_page (suc (length replies)) end all room b k)
      ]
  pages-Descending (inr (r ∷ raw) ∷ replies) end all room b k =
      elim (Bool-cases (leb total (length all))) [
        | inl done ↦ rw done tt
        | inr more ↦
            let grown = all ++ sort_by_time (filter_map (λ r. to_option (read r)) (r ∷ raw)) in
            rw more (
              page_then (suc (length replies)) end all _ room b k λ end' e left small.
                subst
                  (λ z.
                    Descending (g * 60000) end'
                      (pages read total page_size (pos g) replies z grown).0)
                  (sym e) (pages-Descending replies end' grown left small k))
      ]

  -- The pages leave holes. Let one page begin at the time `f`, and another be asked for after it. The
  -- second ends one bar's length before `f`, and no page of the whole run covers any time strictly
  -- between: unless `f` is itself the opening time of a bar, one bar opens there, and is never asked
  -- for. `end` is the clock's reading, and the pages lie after the beginning of its count.
  pub pages-hole :
      (replies : List (ExchangeError ⊎ List R)) (end : ℕ) (before after : List Window)
      (w u : Window) (f t : ℕ)
      → (g * 60000 * page_size + g * 60000) * suc (length replies) ≤ end
      → end < 2 ^ 63
      → page_size < 2 ^ 63
      → (pages read total page_size (pos g) replies (pos end) []).0 ≡ before ++ w ∷ u ∷ after
      → w.from_ms ≡ pos f
      → t < f
      → f < t + g * 60000
      → (u.to_ms ≡ pos (f - g * 60000))
        × All (λ x. Covers t x → ⊥) (pages read total page_size (pos g) replies (pos end) []).0
  pages-hole replies end before after w u f t room b k e q lt near =
      let d = subst (Descending (g * 60000) end) e (pages-Descending replies end [] room b k) in
      let (to, _, holes) = Descending-hole (g * 60000) end f t before w u after d q lt near in
      (to, subst (All (λ x. Covers t x → ⊥)) (sym e) holes)
