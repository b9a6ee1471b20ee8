-- ===== src/Threshold/Gate/Counting.antt =====
-- Which of the matches in one window are reported.
use native.Mathlib.Nat.{suc-mod, mod_self, mod-eq_of_lt}
use argus_ips.Base.{
  ℕ, suc, ◌+◌, ◌*◌, ◌%◌, ◌<◌, ◌≤◌, Bool, false, List, [], ◌∷◌, Option, none, some, ◌≡◌, refl, ap,
  length, ltb, leb, ◌==◌, if◌then◌else◌, arith, Bool-cases, inl, inr, ◌∙◌,
}
use argus_ips.Threshold.Gate.{
  Kind, limit, every, both, over, Threshold, Window, u32_mod, fresh, decide, count_match,
}

-- The answers to matches at the given times under one key.
unfoldable pub answers : Threshold → Option Window → List ℕ → List Bool
answers r held [] = []
answers r held (t ∷ ts) =
    let (w, reported) = count_match held t r in reported ∷ answers r (some w) ts

-- The documented meaning of each kind, for the `i`th match of a window (from 1).
abbrev pub reports : Kind → ℕ → ℕ → Bool
reports limit n i = leb i n
reports every n i = i % n == 0
reports both n i = i == n
reports over n i = ltb n i

abbrev pub expected : Kind → ℕ → ℕ → List ℕ → List Bool
expected k n i [] = []
expected k n i (t ∷ ts) = reports k n i ∷ expected k n (suc i) ts

abbrev pub AllBelow : ℕ → List ℕ → Type 0
AllBelow b [] = Unit
AllBelow b (t ∷ ts) = (t < b) × AllBelow b ts

-- A window after `i` matches.
abbrev Counted : Kind → ℕ → ℕ → Window → Type 0
Counted limit n i w = w.count ≡ i
Counted every n i w = w.count ≡ i % n
Counted both n i w = (w.count ≡ i) × (w.reported ≡ leb n i)
Counted over n i w = w.count ≡ i

mod_step : (n i : ℕ) → 0 < n → suc i % n ≡ (if leb n (i % n + 1) then 0 else i % n + 1)
mod_step n i pos = elim (Bool-cases (leb n (i % n + 1))) [
  | inl h ↦ rw h (grind (arith, suc-mod i n, mod_self n))
  | inr h ↦ rw h (grind (arith, suc-mod i n, mod-eq_of_lt {n = suc (i % n)} {m = n}))
]

decide-Counted :
    (k : Kind) (n i : ℕ) (w : Window)
    → 0 < n
    → Counted k n i w
    → ((decide k n (record w { count = w.count + 1 })).1 ≡ reports k n (suc i))
      × Counted k n (suc i) (decide k n (record w { count = w.count + 1 })).0
      × ((decide k n (record w { count = w.count + 1 })).0.start_ms ≡ w.start_ms)
unfolding decide
decide-Counted limit n i w pos c = ground arith
decide-Counted every n i w pos c = ground (arith, mod_step n i pos)
decide-Counted both n i w pos c = ground arith
decide-Counted over n i w pos c = ground arith

Counted-le : (k : Kind) (n i : ℕ) (w : Window) → 0 < n → Counted k n i w → w.count ≤ i
Counted-le limit n i w pos c = omega arith
Counted-le every n i w pos c = omega arith
Counted-le both n i w pos c = omega arith
Counted-le over n i w pos c = omega arith

fresh-Counted : (k : Kind) (n t : ℕ) → 0 < n → Counted k n 0 (fresh t)
fresh-Counted limit n t pos = refl
fresh-Counted every n t pos = omega arith
fresh-Counted both n t pos = ground arith
fresh-Counted over n t pos = refl

module _ (r : Threshold) (pos : 0 < r.count) where
  step-Counted :
      (w : Window) (t i : ℕ)
      → t < w.start_ms + r.seconds * 1000
      → suc i < u32_mod
      → Counted r.kind r.count i w
      → ((count_match (some w) t r).1 ≡ reports r.kind r.count (suc i))
        × Counted r.kind r.count (suc i) (count_match (some w) t r).0
        × ((count_match (some w) t r).0.start_ms ≡ w.start_ms)
  unfolding count_match
  step-Counted w t i h b c =
      let le = Counted-le r.kind r.count i w pos c in
      let e : leb (w.start_ms + r.seconds * 1000) t ≡ false = ground arith in
      let m : (w.count + 1) % u32_mod ≡ w.count + 1 = omega arith in
      rw (e, m) (decide-Counted r.kind r.count i w pos c)

  answers-Counted :
      (ts : List ℕ) (w : Window) (i : ℕ)
      → AllBelow (w.start_ms + r.seconds * 1000) ts
      → i + length ts < u32_mod
      → Counted r.kind r.count i w
      → answers r (some w) ts ≡ expected r.kind r.count (suc i) ts
  unfolding answers
  answers-Counted [] w i h b c = refl
  answers-Counted (t ∷ ts) w i h b c =
      let w' = (count_match (some w) t r).0 in
      let s = step-Counted w t i h.0 (omega arith) c in
      rw s.0 (
        ap (◌∷◌ (reports r.kind r.count (suc i)))
          (answers-Counted ts w' (suc i) (rw s.2 h.1) (omega arith) s.1))

  answers_open :
      (t : ℕ) (ts : List ℕ)
      → 0 < r.seconds
      → answers r none (t ∷ ts) ≡ answers r (some (fresh t)) (t ∷ ts)
  unfolding answers count_match
  answers_open t ts span = let e : leb (t + r.seconds * 1000) t ≡ false = ground arith in rw e refl

  -- For a rule with a count and a length above 0: within one window, which the first match opens
  -- and in which fewer than `2 ^ 32` matches fall, `limit` reports the first `count` matches,
  -- `threshold` every `count`th, `both` the `count`th alone, and `detection_filter` all after the
  -- `count`th.
  pub answers-expected :
      (t : ℕ) (ts : List ℕ)
      → 0 < r.seconds
      → AllBelow (t + r.seconds * 1000) ts
      → suc (length ts) < u32_mod
      → answers r none (t ∷ ts) ≡ expected r.kind r.count 1 (t ∷ ts)
  answers-expected t ts span h b =
      answers_open t ts span
      ∙ answers-Counted (t ∷ ts) (fresh t) 0 (omega arith, h) (omega arith)
          (fresh-Counted r.kind r.count t pos)
