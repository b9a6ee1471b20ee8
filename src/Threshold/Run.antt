-- ===== src/Threshold/Run.antt =====
-- `run_threshold_gate` of src/threshold.rs: the loop between the workers and the writer. The rules
-- that a generation of the ruleset has, and std's sort by `order`, are parameters; an event is the
-- generation in force when an alert arrives, with the alert.
pub mod Accounts
pub mod Replay
use argus_ips.Base.{
  ℕ, suc, ◌+◌, Bool, true, false, not, ◌&&◌, List, [], ◌∷◌, ◌++◌, Option, none, some, length, leb,
  ◌==◌, if◌then◌else◌,
}
use argus_ips.Threshold.Gate.{
  Alert, Threshold, XbitSpec, Gate, empty_gate, xbits_hold, xbits_apply, admit,
}

pub record Rules : Type 0 where
  pub threshold_for : ℕ → Option Threshold
  pub xbits_for : ℕ → Option XbitSpec

pub record GateStats : Type 0 where
  pub passed : ℕ
  pub withheld : ℕ

-- The locals of the loop, and what was sent on `tx`.
pub record State : Type 0 where
  pub gate : Gate
  pub stats : GateStats
  pub generation : ℕ
  pub held : List Alert
  pub sent : List Alert

abbrev pub withhold : State → State
withhold s = record s {
  stats = record { passed = s.stats.passed; withheld = s.stats.withheld + 1 };
}

abbrev pub pass : State → Alert → State
pass s a = record s {
  stats = record { passed = s.stats.passed + 1; withheld = s.stats.withheld };
  sent = s.sent ++ a ∷ [];
}

-- The end of `settle`: `rule.is_none_or(|t| gate.admit(&alert, &t))`.
unfoldable pub settle_rate : State → Option Threshold → Alert → State
settle_rate s none a = pass s a
settle_rate s (some t) a =
    let (g, admitted) = admit s.gate a t in
    let s' = record s { gate = g } in if admitted then pass s' a else withhold s'

-- `settle`
unfoldable pub settle : State → Option Threshold → Option XbitSpec → Alert → State
settle s t none a = settle_rate s t a
settle s t (some spec) a =
    if not (xbits_hold s.gate a spec.ops)
    then withhold s
    else if spec.noalert
    then record s { gate = xbits_apply s.gate a spec }
    else settle_rate (record s { gate = xbits_apply s.gate a spec }) t a

abbrev pub is_none {ℓ} : {A : Type ℓ} → Option A → Bool
is_none none = true
is_none (some x) = false

-- The first `if` of the loop: a new generation starts with an empty gate.
unfoldable pub refresh : State → ℕ → State
refresh s gen = if gen == s.generation then s else record s { gate = empty_gate; generation = gen }

abbrev pub start : ℕ → State
start gen = record {
  gate = empty_gate;
  stats = record { passed = 0; withheld = 0 };
  generation = gen;
  held = [];
  sent = [];
}

module _ (load : ℕ → Rules) where
  unfoldable pub settle_all : State → List Alert → State
  settle_all s [] = s
  settle_all s (a ∷ as') =
      let r = load s.generation in
      settle_all (settle s (r.threshold_for a.sid) (r.xbits_for a.sid) a) as'

module _ (load : ℕ → Rules) (sort : List Alert → List Alert) (max_held : ℕ) where
  -- An alert that is held, and the batch that is counted when too many are.
  unfoldable pub hold : State → Alert → State
  hold s a =
      let s' = record s { held = s.held ++ a ∷ [] } in
      if leb max_held (length s'.held)
      then settle_all load (record s' { held = [] }) (sort s'.held)
      else s'

  -- One round of the loop.
  unfoldable pub receive : Bool → State → ℕ → Alert → State
  receive ordered s gen a =
      let s' = refresh s gen in
      let r = load gen in
      let t = r.threshold_for a.sid in
      let b = r.xbits_for a.sid in
      if is_none t && is_none b
      then settle s' none none a
      else if ordered
      then hold s' a
      else settle s' t b a

  unfoldable pub receive_all : Bool → State → List (ℕ × Alert) → State
  receive_all ordered s [] = s
  receive_all ordered s ((gen, a) ∷ es) = receive_all ordered (receive ordered s gen a) es

  -- What is still held when the channel closes.
  unfoldable pub finish : State → State
  finish s = settle_all load (record s { held = [] }) (sort s.held)

  unfoldable pub run_threshold_gate : Bool → ℕ → List (ℕ × Alert) → State
  run_threshold_gate ordered gen es = finish (receive_all ordered (start gen) es)
