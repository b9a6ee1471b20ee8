-- ===== src/Window/DistinctKeys.antt =====
-- `WindowSet` of src/window.rs: distinct keys seen in a sliding window, with a hard cap.
pub mod Bounds
pub mod Recent
use argus_ips.Base.{
  ℕ, suc, ◌+◌, ◌<◌, ◌≤◌, max, Bool, true, false, not, ◌&&◌, none, some, [], Eq, length, ltb, leb,
  if◌then◌else◌,
}
use argus_ips.HashMap.{HashMap, get, contains_key, insert, retain}

abbrev pub prune_interval_secs : ℕ
prune_interval_secs = 1

pub record WindowSet (K : Type 0) : Type 0 where
  pub seen : HashMap K ℕ
  pub last_pruned : ℕ
  pub cap : ℕ
  pub refused : ℕ

-- `WindowSet::new`
unfoldable pub new : {K : Type 0} → ℕ → WindowSet K
new cap = record { seen = []; last_pruned = 0; cap = max cap 1; refused = 0 }

-- `t > cutoff` for `cutoff = now_sec - window_secs`
abbrev pub is_live : ℕ → ℕ → ℕ → Bool
is_live now_sec window_secs t = ltb now_sec (t + window_secs)

-- The first `if` of `insert`.
unfoldable pub prune : {K : Type 0} → WindowSet K → ℕ → ℕ → WindowSet K
prune s now_sec window_secs =
    if leb (s.last_pruned + prune_interval_secs) now_sec
    then record s { seen = retain (is_live now_sec window_secs) s.seen; last_pruned = now_sec }
    else s

module _ {K : Type 0} ⦃e : Eq K⦄ where
  -- The test of the second `if` of `insert`.
  unfoldable pub is_refused : WindowSet K → K → Bool
  is_refused s key = leb s.cap (length s.seen) && not (contains_key key s.seen)

  unfoldable pub insert_pruned : WindowSet K → K → ℕ → WindowSet K × ℕ
  insert_pruned s key now_sec =
      if is_refused s key
      then (record s { refused = s.refused + 1 }, length s.seen)
      else (record s { seen = insert key now_sec s.seen }, length (insert key now_sec s.seen))

  -- `WindowSet::insert`: the new state and the number that it returns.
  unfoldable pub insert_key : WindowSet K → K → ℕ → ℕ → WindowSet K × ℕ
  insert_key s key now_sec window_secs = insert_pruned (prune s now_sec window_secs) key now_sec

  -- `WindowSet::contains`
  unfoldable pub contains : WindowSet K → K → ℕ → ℕ → Bool
  contains s key now_sec window_secs = elim (get key s.seen) [
    | none ↦ false
    | some t ↦ leb now_sec (t + window_secs)
  ]
