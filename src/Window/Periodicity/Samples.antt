-- ===== src/Window/Periodicity/Samples.antt =====
-- The samples that `Periodicity` keeps, and when it gives a verdict.
use argus_ips.Base.{
  ℕ, suc, ◌-◌, ◌%◌, ◌<◌, Bool, true, false, List, [], ◌∷◌, Option, none, some, ◌≡◌, ltb,
  if◌then◌else◌, arith, length, get_or, take, length-set, get_or-set_self, get_or-set_ne,
  Bool-cases, inl, inr, ==_iff,
}
use argus_ips.Window.Periodicity.{
  Periodicity, Float, periodicity_samples, samples, sum, push_gap, observe_after, observe_state,
  verdict, observe,
}

-- The ring has its eight places, `next` is where the next gap goes, the gaps counted are above 0.
pub record IsValid (s : Periodicity) : Type 0 where
  pub places : length s.gaps ≡ periodicity_samples
  pub next_is : s.next ≡ s.count % periodicity_samples
  pub positive : (i : ℕ) → i < samples s → 0 < get_or s.gaps i 0

push_gap-IsValid : (s : Periodicity) (gap : ℕ) → 0 < gap → IsValid s → IsValid (push_gap s gap)
unfolding push_gap
push_gap-IsValid s gap pos v = record {
  places = omega (arith, length-set s.gaps s.next gap, v.places);
  next_is = omega (arith, v.next_is);
  positive = λ i h. ground (
    arith,
    get_or-set_self s.gaps s.next gap 0,
    get_or-set_ne s.gaps s.next i gap 0,
    v.positive i,
    v.places,
    v.next_is,
    ==_iff s.next i,
  );
}

stamp-IsValid : (s : Periodicity) (l : Option ℕ) → IsValid s → IsValid (record s { last_seen = l })
stamp-IsValid s l v = record { places = v.places; next_is = v.next_is; positive = v.positive }

stamp-IsValid_if :
    (b : Bool) (s : Periodicity) (now : ℕ)
    → IsValid s
    → IsValid (if b then s else record s { last_seen = some now })
stamp-IsValid_if true s now v = v
stamp-IsValid_if false s now v = stamp-IsValid s (some now) v

observe_after-IsValid :
    (l : Option ℕ) (s : Periodicity) (now : ℕ) → IsValid s → IsValid (observe_after l s now)
unfolding observe_after
observe_after-IsValid none s now v = stamp-IsValid s (some now) v
observe_after-IsValid (some prev) s now v = elim (Bool-cases (ltb prev now)) [
  | inl h ↦
      let v' = push_gap-IsValid s (now - prev) (ground arith) v in
      rw h (stamp-IsValid_if (ltb now prev) (push_gap s (now - prev)) now v')
  | inr h ↦ rw h (stamp-IsValid_if (ltb now prev) s now v)
]

-- Observing keeps the ring valid, in whatever order the times come: at most eight gaps are kept,
-- the next one goes where the oldest stands, and none of them is 0.
pub observe_state-IsValid : (s : Periodicity) (now : ℕ) → IsValid s → IsValid (observe_state s now)
unfolding observe_state
observe_state-IsValid s now v = observe_after-IsValid s.last_seen s now v

sum-pos : (n : ℕ) (xs : List ℕ) → 0 < get_or xs 0 0 → 0 < sum (take (suc n) xs)
sum-pos n [] h = absurd (omega arith)
sum-pos n (x ∷ xs) h = omega arith

module _ (f : Float) where
  -- Division of two integers above 0 in `f64` is above 0.
  abbrev pub QuotientsArePositive : Type 0
  QuotientsArePositive =
      (a b : ℕ) → 0 < a → 0 < b → f.is_le_zero (f.div_f (f.of_int a) (f.of_int b)) ≡ false

  abbrev pub is_none {ℓ} : {A : Type ℓ} → Option A → Bool
  is_none none = true
  is_none (some a) = false

  sample-pos : (s : Periodicity) → IsValid s → 0 < samples s → 0 < sum (take (samples s) s.gaps)
  sample-pos s v h =
      let e : samples s ≡ suc (samples s - 1) = omega arith in
      rw e (sum-pos (samples s - 1) s.gaps (v.positive 0 h))

  verdict-is_none :
      QuotientsArePositive → (s : Periodicity) → IsValid s → is_none (verdict f s) ≡ ltb s.count 6
  unfolding verdict
  verdict-is_none q s v = elim (Bool-cases (ltb (samples s) 6)) [
    | inl few ↦ rw few (ground arith)
    | inr enough ↦
        let n = samples s in
        let pos = q (sum (take n s.gaps)) n (sample-pos s v (ground arith)) (ground arith) in
        rw (enough, pos) (ground arith)
  ]

  -- Where quotients of numbers above 0 are above 0, in a valid state an observation gives a
  -- verdict exactly when six gaps or more were counted: the test on the mean never refuses one.
  pub observe-verdict_iff :
      QuotientsArePositive
      → (s : Periodicity) (now : ℕ) → IsValid s
      → is_none (observe f s now).1 ≡ ltb (observe f s now).0.count 6
  unfolding observe
  observe-verdict_iff q s now v =
      verdict-is_none q (observe_state s now) (observe_state-IsValid s now v)
