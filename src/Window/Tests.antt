-- ===== src/Window/Tests.antt =====
-- src/window.rs at concrete inputs.
use argus_ips.Base.{
  ◌%◌, u64_range, ◌<◌, ◌↔◌, ℕ, zero, suc, ◌+◌, ◌-◌, ◌*◌, max, List, [], ◌∷◌, none, some, ◌≡◌, refl,
  length, ltb, leb, ◌==◌, if◌then◌else◌, nat_eq, arith,
}
use argus_ips.HashMap.{get}
use argus_ips.Window.AlertGate.{allowed, allowed_lem, IsSpaced, AllNear}
use argus_ips.Window.DistinctKeys.Bounds.{IsValid as TableIsValid, insert_key-IsValid}
use argus_ips.Window.DistinctKeys.Recent.{replay as replay_keys, newest as newest_key, get-replay}
use argus_ips.Window.DistinctKeys.{WindowSet, insert_key}
use argus_ips.Window.Periodicity.Samples.{
  IsValid as SamplesIsValid, is_none, QuotientsArePositive, observe_state-IsValid,
  observe-verdict_iff,
}
use argus_ips.Window.Periodicity.{Periodicity, Float, observe_state, observe}
use argus_ips.Window.RateWindow.Totals.{replay as replay_counts, total-replay}
use argus_ips.Window.RateWindow.Slots.{amount_within}
use argus_ips.Window.RateWindow.{total}

abbrev two_keys : WindowSet ℕ
two_keys = record { seen = (1, 90) ∷ (2, 95) ∷ []; last_pruned = 95; cap = 2; refused = 0 }

two_keys-IsValid : TableIsValid two_keys
two_keys-IsValid = record {
  positive = omega arith;
  bounded = omega arith;
  distinct = (refl, (refl, tt));
}

insert_key-IsValid_example :
    TableIsValid (insert_key two_keys 7 100 60).0
    × ((insert_key two_keys 7 100 60).1 ≡ length (insert_key two_keys 7 100 60).0.seen)
insert_key-IsValid_example = insert_key-IsValid two_keys 7 100 60 two_keys-IsValid

abbrev three_sightings : List (ℕ × ℕ)
three_sightings = (4, 100) ∷ (5, 70) ∷ (4, 10) ∷ []

get-replay_example :
    (get 4 (replay_keys 8 60 three_sightings).seen ≡ some 100)
    ↔ ((get 4 three_sightings ≡ some 100) × (newest_key three_sightings < 100 + 60))
get-replay_example =
    get-replay 8 60 three_sightings 4 100 (omega arith, (omega arith, (omega arith, tt)))
      (omega arith) (omega arith)

allowed_lem_example :
    IsSpaced 10 none (allowed (record { last = none }) 10 (5 ∷ 9 ∷ 3 ∷ 20 ∷ []))
    × AllNear 10 (allowed (record { last = none }) 10 (5 ∷ 9 ∷ 3 ∷ 20 ∷ [])) (5 ∷ 9 ∷ 3 ∷ 20 ∷ [])
allowed_lem_example = allowed_lem (record { last = none }) 10 (5 ∷ 9 ∷ 3 ∷ 20 ∷ [])

abbrev three_additions : List (ℕ × ℕ)
three_additions = (12, 5) ∷ (11, 2) ∷ (5, 9) ∷ []

total-replay_example :
    total (replay_counts 3 three_additions) 13
    ≡ amount_within (max 3 1) 13 three_additions % u64_range
total-replay_example =
    total-replay 3 13 three_additions (omega arith, (omega arith, (omega arith, tt))) (omega arith)

abbrev one_gap : Periodicity
one_gap = record {
  last_seen = some 40;
  gaps = 30 ∷ 0 ∷ 0 ∷ 0 ∷ 0 ∷ 0 ∷ 0 ∷ 0 ∷ [];
  count = 1;
  next = 1;
}

one_gap-IsValid : SamplesIsValid one_gap
one_gap-IsValid = record { places = refl; next_is = refl; positive = λ i h. ground arith }

observe_state-IsValid_example : SamplesIsValid (observe_state one_gap 70)
observe_state-IsValid_example = observe_state-IsValid one_gap 70 one_gap-IsValid

-- Fractions in place of `f64`.
abbrev Fraction : Type 0
Fraction = ℕ × ℕ

abbrev root : ℕ → ℕ → ℕ
root zero n = 0
root (suc k) n = if leb (suc k * suc k) n then suc k else root k n

abbrev fractions : Float
fractions = record {
  F = Fraction;
  of_int = λ a. (a, 1);
  zero_f = (0, 1);
  add_f = λ x y. (x.0 * y.1 + y.0 * x.1, x.1 * y.1);
  sub_f = λ x y. ((x.0 * y.1 - y.0 * x.1) + (y.0 * x.1 - x.0 * y.1), x.1 * y.1);
  div_f = λ x y. (x.0 * y.1, x.1 * y.0);
  square_f = λ x. (x.0 * x.0, x.1 * x.1);
  sqrt_f = λ x. (root x.0 x.0, root x.1 x.1);
  is_le_zero = λ x. x.0 == 0;
}

fractions-QuotientsArePositive : QuotientsArePositive fractions
fractions-QuotientsArePositive a b ha hb = ground arith

observe-verdict_iff_example :
    is_none fractions (observe fractions one_gap 70).1
    ≡ ltb (observe fractions one_gap 70).0.count 6
observe-verdict_iff_example =
    observe-verdict_iff fractions fractions-QuotientsArePositive one_gap 70 one_gap-IsValid
