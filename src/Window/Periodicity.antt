-- ===== src/Window/Periodicity.antt =====
-- `Periodicity` of src/window.rs: the last gaps between two sightings, and how regular they are.
-- The program computes the mean and the variation in `f64`, which stands here as the parameter
-- `Float`: a type with the operations that `verdict` uses.
pub mod Samples
use argus_ips.Base.{
  ℕ, zero, suc, ◌+◌, ◌-◌, ◌%◌, ◌<◌, min, Bool, true, false, List, [], ◌∷◌, Option, none, some, ◌≡◌,
  ltb, if◌then◌else◌, map, set, take, replicate,
}

abbrev pub periodicity_samples : ℕ
periodicity_samples = 8

abbrev pub min_periodicity_gaps : ℕ
min_periodicity_gaps = 6

pub record Periodicity : Type 0 where
  pub last_seen : Option ℕ
  pub gaps : List ℕ
  pub count : ℕ
  pub next : ℕ

-- `f64`: a conversion, the arithmetic of `verdict`, and the test `mean <= 0.0`.
pub record Float : Type 1 where
  pub F : Type 0
  pub of_int : ℕ → F
  pub zero_f : F
  pub add_f : F → F → F
  pub sub_f : F → F → F
  pub div_f : F → F → F
  pub square_f : F → F
  pub sqrt_f : F → F
  pub is_le_zero : F → Bool

-- `Periodicity::default`
abbrev pub new : Periodicity
new = record { last_seen = none; gaps = replicate periodicity_samples 0; count = 0; next = 0 }

-- `Periodicity::samples`
abbrev pub samples : Periodicity → ℕ
samples s = min s.count periodicity_samples

abbrev pub sum : List ℕ → ℕ
sum [] = 0
sum (x ∷ xs) = x + sum xs

-- The first `if` of `observe`'s body, for a gap above 0.
unfoldable pub push_gap : Periodicity → ℕ → Periodicity
push_gap s gap = record s {
  gaps = set s.gaps s.next gap;
  next = (s.next + 1) % periodicity_samples;
  count = s.count + 1;
}

-- `observe` on the time of the last sighting. A time before it is dropped.
unfoldable pub observe_after : Option ℕ → Periodicity → ℕ → Periodicity
observe_after none s now_sec = record s { last_seen = some now_sec }
observe_after (some prev) s now_sec =
    let s' = if ltb prev now_sec then push_gap s (now_sec - prev) else s in
    if ltb now_sec prev then s' else record s' { last_seen = some now_sec }

-- The state that `observe` leaves.
unfoldable pub observe_state : Periodicity → ℕ → Periodicity
observe_state s now_sec = observe_after s.last_seen s now_sec

module _ (f : Float) where
  open f use {F, of_int, zero_f, add_f, sub_f, div_f, square_f, sqrt_f, is_le_zero}

  abbrev sum_f : F → List F → F
  sum_f acc [] = acc
  sum_f acc (x ∷ xs) = sum_f (add_f acc x) xs

  mean : List ℕ → ℕ → F
  mean sample n = div_f (of_int (sum sample)) (of_int n)

  -- `Periodicity::verdict`
  unfoldable pub verdict : Periodicity → Option (F × F)
  unfolding mean
  verdict s =
      let n = samples s in
      let sample = take n s.gaps in
      let m = mean sample n in
      let variance =
        div_f (sum_f zero_f (map (λ g. square_f (sub_f (of_int g) m)) sample)) (of_int n) in
      if ltb n min_periodicity_gaps
      then none
      else if is_le_zero m
      then none
      else some (m, div_f (sqrt_f variance) m)

  -- `Periodicity::observe`: the new state and the verdict that it returns.
  unfoldable pub observe : Periodicity → ℕ → Periodicity × Option (F × F)
  observe s now_sec = let s' = observe_state s now_sec in (s', verdict s')
