-- ===== src/Runner/Guard/Spacing.antt =====
-- The limit that `WsMsgGuard` of src/ws/runner.rs enforces on a whole run of sends.
use exchange_apiws.Prelude.{
  ℕ, zero, suc, ◌+◌, ◌-◌, ◌≤◌, ◌<◌, some, List, [], ◌∷◌, ◌++◌, ◌≡◌, refl, sym, ap, ◌∙◌, inl, inr,
  arith, All, All-append, All-imp, length, length-append, get_elem?, append_assoc, append-nil,
  subst, replicate,
}
use exchange_apiws.Runner.Guard.{WsMsgGuard, new, drop_old, wait, throttle, check, checks, secs}
use exchange_apiws.Runner.Guard.Window.{
  Spaced, get_elem?-append, All-get, Spaced-snoc, FrontBefore, drop_old-shrinks, drop_old-split,
  wait_lem, All-right, front-get, FrontBefore-append,
}

-- The clock of a run: it moves on between checks, and a sleep lasts as long as was asked.
abbrev pub Paced : WsMsgGuard → ℕ → List (ℕ × ℕ) → Type 0
Paced g last [] = Unit
Paced g last ((now, later) ∷ readings) =
    (last < now) × (now + throttle g now ≤ later) × Paced (check now later g) later readings

record Inv (g : WsMsgGuard) (popped : List ℕ) (last : ℕ) : Type 0 where
  old : All (λ x. x + g.window_dur ≤ last) popped
  recent : All (λ x. x ≤ last) g.window
  size : length g.window ≤ suc g.max_msgs
  full : length g.window ≡ suc g.max_msgs → FrontBefore g.window_dur last g.window
  spaced : Spaced g.max_msgs g.window_dur (popped ++ g.window)

module _ (g : WsMsgGuard) (popped : List ℕ) (last now later : ℕ) (v : Inv g popped last)
    (pos : 0 < g.max_msgs) (tick : last < now) (slept : now + throttle g now ≤ later) where
  abbrev kept : List ℕ
  kept = drop_old g.window_dur now g.window

  kept_size : length kept ≤ g.max_msgs
  kept_size = drop_old-shrinks g.window_dur now last g.max_msgs g.window v.size v.full tick

  kept_recent : All (λ x. x ≤ now) kept
  kept_recent =
      let (dropped, split, all) = drop_old-split g.window_dur now g.window in
      All-right (λ x. x ≤ now) dropped kept
        (All-imp (λ x h. omega arith) (dropped ++ kept)
          (subst (All (λ x. x ≤ last)) split v.recent))

  kept_front : g.max_msgs ≤ length kept → FrontBefore g.window_dur later kept
  unfolding throttle
  kept_front h = front kept (wait_lem g now kept kept_recent h)
    where
      front :
          (w : List ℕ)
          → FrontBefore g.window_dur (now + wait g now kept) w
          → FrontBefore g.window_dur later w
      front [] f = tt
      front (x ∷ w) f = omega arith

  -- The send that stands `max_msgs` places back has left the window.
  late :
      (gone : List ℕ)
      → All (λ x. x + g.window_dur ≤ later) gone
      → (i a : ℕ) → get_elem? (gone ++ kept) i ≡ some a
      → i + g.max_msgs ≡ length (gone ++ kept)
      → a + g.window_dur ≤ later
  late gone old i a e n = elim (get_elem?-append gone kept i {a = a} e) [
    | inl e' ↦ All-get (λ x. x + g.window_dur ≤ later) gone i {a = a} old e'
    | inr (far, e') ↦
        let total = length-append gone kept in
        let start : i - length gone ≡ 0 = omega (arith, kept_size) in
        front-get g.window_dur later kept {a = a} (kept_front (omega arith)) (rw (← start) e')
  ]

  -- What has left the window by the end of the check.
  gone_old :
      (dropped : List ℕ)
      → All (λ x. x + g.window_dur < now) dropped
      → All (λ x. x + g.window_dur ≤ later) (popped ++ dropped)
  gone_old dropped all =
      All-append (λ x. x + g.window_dur ≤ later) popped dropped
        (All-imp (λ x h. omega arith) popped v.old) (All-imp (λ x h. omega arith) dropped all)

  check-Inv :
      (gone : List ℕ) × Inv (check now later g) gone later
      × (gone ++ (check now later g).window ≡ (popped ++ g.window) ++ later ∷ [])
  unfolding check
  check-Inv =
      let (dropped, split, all) = drop_old-split g.window_dur now g.window in
      let gone = popped ++ dropped in
      let same : gone ++ kept ≡ popped ++ g.window =
        append_assoc popped dropped kept ∙ ap (λ w. popped ++ w) (sym split) in
      let grown : gone ++ (kept ++ later ∷ []) ≡ (popped ++ g.window) ++ later ∷ [] =
        sym (append_assoc gone kept (later ∷ [])) ∙ ap (λ w. w ++ later ∷ []) same in
      let spacing : Spaced g.max_msgs g.window_dur ((gone ++ kept) ++ later ∷ []) =
        Spaced-snoc g.max_msgs g.window_dur (gone ++ kept) later
          (subst (Spaced g.max_msgs g.window_dur) (sym same) v.spaced)
          (late gone (gone_old dropped all)) pos in
      (
        gone,
        record {
          old = gone_old dropped all;
          recent =
              All-append (λ x. x ≤ later) kept (later ∷ [])
                (All-imp (λ x h. omega arith) kept kept_recent) (omega arith);
          size = omega (arith, length-append kept (later ∷ []), kept_size);
          full = λ h.
              FrontBefore-append g.window_dur later kept later
                (omega (arith, length-append kept (later ∷ [])))
                (kept_front (omega (arith, length-append kept (later ∷ []))));
          spaced =
              subst (Spaced g.max_msgs g.window_dur) (append_assoc gone kept (later ∷ [])) spacing;
        },
        grown,
      )

checks-spacing :
    (g : WsMsgGuard) (popped : List ℕ) (last : ℕ) (readings : List (ℕ × ℕ))
    → Inv g popped last
    → 0 < g.max_msgs
    → Paced g last readings
    → Spaced g.max_msgs g.window_dur ((popped ++ g.window) ++ (checks g readings).1)
unfolding checks
checks-spacing g popped last [] v pos p =
    subst (Spaced g.max_msgs g.window_dur) (sym (append-nil (popped ++ g.window))) v.spaced
checks-spacing g popped last ((now, later) ∷ readings) v pos (tick, slept, p) =
    let (gone, v', same) = check-Inv g popped last now later v pos tick slept in
    let rest = (checks (check now later g) readings).1 in
    subst (Spaced g.max_msgs g.window_dur)
      (ap (λ w. w ++ rest) same ∙ append_assoc (popped ++ g.window) (later ∷ []) rest)
      (checks-spacing (check now later g) gone later readings v' pos p)

new-Inv : Inv new [] 0
unfolding new
new-Inv = record {
  old = tt;
  recent = tt;
  size = omega arith;
  full = λ h. tt;
  spaced = λ i a b e f. cc;
}

-- A new guard whose clock moves on between checks, and whose sleeps last as long as it asks, never
-- lets more than 100 messages out in ten seconds: the message 100 places after another comes at
-- least ten seconds after it.
pub checks-spaced :
    (readings : List (ℕ × ℕ)) (i a b : ℕ)
    → Paced new 0 readings
    → get_elem? (checks new readings).1 i ≡ some a
    → get_elem? (checks new readings).1 (i + 100) ≡ some b
    → a + secs 10 ≤ b
unfolding new
checks-spaced readings i a b p = checks-spacing new [] 0 readings new-Inv (omega arith) p i a b

check-boundary :
    (g : WsMsgGuard) (oldest now : ℕ) (rest : List ℕ)
    → g.window ≡ oldest ∷ rest
    → oldest + g.window_dur ≡ now
    → (throttle g now ≡ 0) × (check now now g ≡ record g { window = oldest ∷ (rest ++ now ∷ []) })
unfolding check throttle
check-boundary g oldest now rest w e = (ground arith, ground arith)

-- If the clock stands still at the very instant at which the oldest entry of the window is exactly
-- `window_dur` old, that entry is kept and no sleep is asked for, so that any number `n` of messages
-- is let out at that instant, however many the window holds.
pub checks-boundary :
    (g : WsMsgGuard) (oldest now : ℕ) (rest : List ℕ) (n : ℕ)
    → g.window ≡ oldest ∷ rest
    → oldest + g.window_dur ≡ now
    → (throttle g now ≡ 0)
      × (checks g (replicate n (now, now))
          ≡ (record g { window = (oldest ∷ rest) ++ replicate n now }, replicate n now))
unfolding checks
checks-boundary g oldest now rest zero w e =
    ((check-boundary g oldest now rest w e).0, rw (append-nil rest, ← w) refl)
checks-boundary g oldest now rest (suc n) w e =
    let (free, next) = check-boundary g oldest now rest w e in
    let grown = record g { window = oldest ∷ (rest ++ now ∷ []) } in
    (
      free,
      rw (next, (checks-boundary grown oldest now (rest ++ now ∷ []) n refl e).1)
          (rw append_assoc refl),
    )
