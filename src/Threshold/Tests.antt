-- ===== src/Threshold/Tests.antt =====
-- src/threshold.rs at concrete inputs.
use argus_ips.Address.{v4, IpAddr, string_eq, pair_eq_instance}
use argus_ips.Base.{
  ℕ, suc, ◌+◌, true, false, List, [], ◌∷◌, none, some, ◌≡◌, refl, length, leb, if◌then◌else◌,
  nat_eq, arith,
}
use argus_ips.HashMap.{get}
use argus_ips.Threshold.Gate.Counting.{answers, expected, answers-expected}
use argus_ips.Threshold.Gate.Tables.{IsValid, window_key, admit-count_match, admit_other}
use argus_ips.Threshold.Gate.{
  every, by_src, by_dst, Threshold, toggle, is_set, XbitOp, Key, of_src, key_eq_instance, Alert,
  Gate, admit, count_match,
}
use argus_ips.Threshold.Run.Accounts.{run_threshold_gate_accounts}
use argus_ips.Threshold.Run.Replay.{at_generation, run_threshold_gate_order}
use argus_ips.Threshold.Run.{Rules, run_threshold_gate}

abbrev every_second : Threshold
every_second = record { kind = every; track = by_src; count = 2; seconds = 60 }

answers-expected_example :
    answers every_second none (5 ∷ 6 ∷ 7 ∷ 8 ∷ []) ≡ expected every 2 1 (5 ∷ 6 ∷ 7 ∷ 8 ∷ [])
answers-expected_example =
    answers-expected every_second (omega arith) 5 (6 ∷ 7 ∷ 8 ∷ []) (omega arith)
      (omega arith, (omega arith, (omega arith, tt))) (omega arith)

abbrev host : ℕ → IpAddr
host n = v4 (10 ∷ 0 ∷ 0 ∷ n ∷ [])

abbrev alert_at : ℕ → ℕ → Alert
alert_at time n = record {
  timestamp = time;
  sid = 7;
  src = host n;
  dst = host 9;
  port = 80;
  message = "scan";
}

abbrev one_window : Gate
one_window = record {
  windows = ((7, of_src (host 1)), record { start_ms = 1000; count = 1; reported = false }) ∷ [];
  newest_ms = 1000;
  bits = [];
}

one_window-IsValid : IsValid one_window
one_window-IsValid = record { windows_distinct = (refl, tt); bits_distinct = tt }

admit-count_match_example :
    ((admit one_window (alert_at 2000 1) every_second).1
      ≡ (count_match
          (get (window_key every_second (alert_at 2000 1)) one_window.windows)
          2000
          every_second).1)
    × (get
          (window_key every_second (alert_at 2000 1))
          (admit one_window (alert_at 2000 1) every_second).0.windows
        ≡ some
            (count_match
              (get (window_key every_second (alert_at 2000 1)) one_window.windows)
              2000
              every_second).0)
admit-count_match_example =
    admit-count_match one_window (alert_at 2000 1) every_second one_window-IsValid (omega arith)
      (omega arith)

admit_other_example :
    get (7, of_src (host 1)) (admit one_window (alert_at 2000 2) every_second).0.windows
    ≡ get (7, of_src (host 1)) one_window.windows
unfolding argus_ips.Threshold.Gate.track_key
admit_other_example =
    admit_other one_window (alert_at 2000 2) every_second (7, of_src (host 1)) one_window-IsValid
      (omega arith) refl

abbrev on_src : XbitOp
on_src = record { verb = toggle; name = "seen"; track = by_src; expire_secs = 60 }

abbrev on_dst : XbitOp
on_dst = record { verb = is_set; name = "seen"; track = by_dst; expire_secs = 60 }

abbrev counted_rules : ℕ → Rules
counted_rules gen = record { threshold_for = λ sid. some every_second; xbits_for = λ sid. none }

abbrev insert_by_time : Alert → List Alert → List Alert
insert_by_time a [] = a ∷ []
insert_by_time a (b ∷ bs) =
    if leb a.timestamp b.timestamp then a ∷ b ∷ bs else b ∷ insert_by_time a bs

abbrev by_time : List Alert → List Alert
by_time [] = []
by_time (a ∷ rest) = insert_by_time a (by_time rest)

length-insert_by_time :
    (a : Alert) (bs : List Alert) → length (insert_by_time a bs) ≡ suc (length bs)
length-insert_by_time a [] = refl
length-insert_by_time a (b ∷ bs) = ground (arith, length-insert_by_time a bs)

length-by_time : (xs : List Alert) → length (by_time xs) ≡ length xs
length-by_time [] = refl
length-by_time (a ∷ rest) =
    omega (arith, length-by_time rest, length-insert_by_time a (by_time rest))

run_threshold_gate_accounts_example :
    let r =
      run_threshold_gate counted_rules by_time 2 true 1
        ((1, alert_at 30 1) ∷ (1, alert_at 20 1) ∷ (2, alert_at 40 1) ∷ []) in
    (r.stats.passed + r.stats.withheld ≡ 3) × (length r.sent ≡ r.stats.passed) × (r.held ≡ [])
run_threshold_gate_accounts_example =
    run_threshold_gate_accounts counted_rules by_time 2 true 1
      ((1, alert_at 30 1) ∷ (1, alert_at 20 1) ∷ (2, alert_at 40 1) ∷ []) (λ g sid. tt)
      length-by_time

run_threshold_gate_order_example :
    run_threshold_gate counted_rules by_time 100 true 1
      (at_generation 1 (alert_at 30 1 ∷ alert_at 20 1 ∷ []))
    ≡ run_threshold_gate counted_rules by_time 100 true 1
        (at_generation 1 (alert_at 20 1 ∷ alert_at 30 1 ∷ []))
run_threshold_gate_order_example =
    run_threshold_gate_order counted_rules by_time 100 1 (alert_at 30 1 ∷ alert_at 20 1 ∷ [])
      (alert_at 20 1 ∷ alert_at 30 1 ∷ []) refl (refl, (refl, tt)) (refl, (refl, tt)) (omega arith)
      (omega arith)
