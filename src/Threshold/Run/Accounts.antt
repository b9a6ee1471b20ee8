-- ===== src/Threshold/Run/Accounts.antt =====
-- Every alert that the gate receives is accounted for.
use argus_ips.Base.{
  ℕ, ◌+◌, Bool, true, false, ◌&&◌, List, [], ◌∷◌, ◌++◌, Option, none, some, ◌≡◌, length, leb,
  if◌then◌else◌, arith, length-append, Bool-cases, inl, inr, refl, ap, ◌∙◌,
}
use argus_ips.Threshold.Gate.{Alert, Threshold, XbitSpec, xbits_hold, xbits_apply}
use argus_ips.Threshold.Run.{
  Rules, State, is_none, settle_rate, settle, settle_all, refresh, hold, receive, receive_all,
  finish, start, run_threshold_gate,
}

abbrev pub IsQuiet : Option XbitSpec → Type 0
IsQuiet none = Unit
IsQuiet (some spec) = spec.noalert ≡ false

-- Of `n` alerts received, each was passed, was withheld, or is held.
record Accounts (n : ℕ) (s : State) : Type 0 where
  total : s.stats.passed + s.stats.withheld + length s.held ≡ n
  sent_all : length s.sent ≡ s.stats.passed

settle_rate-Accounts :
    (n : ℕ) (s : State) (t : Option Threshold) (a : Alert)
    → Accounts n s
    → Accounts (n + 1) (settle_rate s t a)
unfolding settle_rate
settle_rate-Accounts n s none a b = ground (arith, length-append s.sent (a ∷ []))
settle_rate-Accounts n s (some t) a b = ground (arith, length-append s.sent (a ∷ []))

settle-Accounts :
    (n : ℕ) (s : State) (t : Option Threshold) (x : Option XbitSpec) (a : Alert)
    → IsQuiet x
    → Accounts n s
    → Accounts (n + 1) (settle s t x a)
unfolding settle xbits_apply
settle-Accounts n s t none a q b = settle_rate-Accounts n s t a b
settle-Accounts n s t (some spec) a q b = elim (Bool-cases (xbits_hold s.gate a spec.ops)) [
  | inl holds ↦
      rw (holds, q)
        (settle_rate-Accounts n (record s { gate = xbits_apply s.gate a spec }) t a
          (record { total = b.total; sent_all = b.sent_all }))
  | inr fails ↦ rw fails (ground arith)
]

refresh-Accounts : (n : ℕ) (s : State) (gen : ℕ) → Accounts n s → Accounts n (refresh s gen)
unfolding refresh
refresh-Accounts n s gen b = ground arith

module _ (load : ℕ → Rules) (quiet : (gen sid : ℕ) → IsQuiet ((load gen).xbits_for sid)) where
  settle_all-Accounts :
      (n m : ℕ) (s : State) (xs : List Alert)
      → m ≡ n + length xs
      → Accounts n s
      → Accounts m (settle_all load s xs)
  unfolding settle_all
  settle_all-Accounts n m s [] e b = ground arith
  settle_all-Accounts n m s (a ∷ xs) e b =
      let r = load s.generation in
      settle_all-Accounts (n + 1) m (settle s (r.threshold_for a.sid) (r.xbits_for a.sid) a) xs
        (omega arith)
        (settle-Accounts n s (r.threshold_for a.sid) (r.xbits_for a.sid) a
          (quiet s.generation a.sid) b)

  module _ (sort : List Alert → List Alert) (max_held : ℕ)
      (sort_length : (xs : List Alert) → length (sort xs) ≡ length xs) where
    flush-Accounts :
        (n : ℕ) (s : State)
        → Accounts n s
        → Accounts n (settle_all load (record s { held = [] }) (sort s.held))
    flush-Accounts n s b =
        settle_all-Accounts (s.stats.passed + s.stats.withheld) n (record s { held = [] })
          (sort s.held) (omega (arith, sort_length s.held, b.total))
          (record { total = omega arith; sent_all = b.sent_all })

    hold-Accounts :
        (n : ℕ) (s : State) (a : Alert)
        → Accounts n s
        → Accounts (n + 1) (hold load sort max_held s a)
    unfolding hold
    hold-Accounts n s a b =
        let s' = record s { held = s.held ++ a ∷ [] } in
        let b' : Accounts (n + 1) s' = record {
          total = omega (arith, length-append s.held (a ∷ []), b.total);
          sent_all = b.sent_all;
        } in
        elim (Bool-cases (leb max_held (length s'.held))) [
          | inl full ↦ rw full (flush-Accounts (n + 1) s' b')
          | inr room ↦ rw room b'
        ]

    receive-Accounts :
        (n : ℕ) (ordered : Bool) (s : State) (gen : ℕ) (a : Alert)
        → Accounts n s
        → Accounts (n + 1) (receive load sort max_held ordered s gen a)
    unfolding receive
    receive-Accounts n ordered s gen a b =
        let t = (load gen).threshold_for a.sid in
        let x = (load gen).xbits_for a.sid in
        let b' = refresh-Accounts n s gen b in
        let s' = refresh s gen in
        elim (Bool-cases (is_none t && is_none x)) [
          | inl free ↦ rw free (settle-Accounts n s' none none a tt b')
          | inr counted ↦ rw counted (tracked ordered s' t x gen b' (quiet gen a.sid))
        ]
      where
        tracked :
            (o : Bool) (s' : State) (t : Option Threshold) (x : Option XbitSpec) (gen : ℕ)
            → Accounts n s'
            → IsQuiet x
            → Accounts (n + 1) (if o then hold load sort max_held s' a else settle s' t x a)
        tracked true s' t x gen b' q = hold-Accounts n s' a b'
        tracked false s' t x gen b' q = settle-Accounts n s' t x a q b'

    receive_all-Accounts :
        (n m : ℕ) (ordered : Bool) (s : State) (es : List (ℕ × Alert))
        → m ≡ n + length es
        → Accounts n s
        → Accounts m (receive_all load sort max_held ordered s es)
    unfolding receive_all
    receive_all-Accounts n m ordered s [] e b = ground arith
    receive_all-Accounts n m ordered s ((gen, a) ∷ es) e b =
        receive_all-Accounts (n + 1) m ordered (receive load sort max_held ordered s gen a) es
          (omega arith) (receive-Accounts n ordered s gen a b)

-- What is held is settled when the channel closes.
held-settle_all :
    (load : ℕ → Rules) (s : State) (xs : List Alert) → (settle_all load s xs).held ≡ s.held
unfolding settle_all settle settle_rate
held-settle_all load s [] = refl
held-settle_all load s (a ∷ xs) =
    let r = load s.generation in
    held-settle_all load (settle s (r.threshold_for a.sid) (r.xbits_for a.sid) a) xs
    ∙ held_settle s (r.threshold_for a.sid) (r.xbits_for a.sid) a
  where
    held_settle :
        (s : State) (t : Option Threshold) (x : Option XbitSpec) (a : Alert)
        → (settle s t x a).held ≡ s.held
    held_settle s none none a = refl
    held_settle s (some t) none a = ground arith
    held_settle s none (some x) a = ground arith
    held_settle s (some t) (some x) a = ground arith

-- When no rule is marked `noalert`, and sorting keeps the number of alerts, each alert that
-- arrives is either sent to the writer and counted as passed, or counted as withheld; at the end
-- none is still held. This holds live and in replay, across batches and changes of the ruleset.
pub run_threshold_gate_accounts :
    (load : ℕ → Rules) (sort : List Alert → List Alert) (max_held : ℕ) (ordered : Bool) (gen : ℕ)
    (es : List (ℕ × Alert))
    → ((g sid : ℕ) → IsQuiet ((load g).xbits_for sid))
    → ((xs : List Alert) → length (sort xs) ≡ length xs)
    → ((run_threshold_gate load sort max_held ordered gen es).stats.passed
          + (run_threshold_gate load sort max_held ordered gen es).stats.withheld
        ≡ length es)
      × (length (run_threshold_gate load sort max_held ordered gen es).sent
          ≡ (run_threshold_gate load sort max_held ordered gen es).stats.passed)
      × ((run_threshold_gate load sort max_held ordered gen es).held ≡ [])
unfolding run_threshold_gate finish
run_threshold_gate_accounts load sort max_held ordered gen es quiet sl =
    let s = receive_all load sort max_held ordered (start gen) es in
    let b =
      receive_all-Accounts load quiet sort max_held sl 0 (length es) ordered (start gen) es
        (omega arith) (record { total = refl; sent_all = refl }) in
    let f = flush-Accounts load quiet sort max_held sl (length es) s b in
    let h = held-settle_all load (record s { held = [] }) (sort s.held) in
    (omega (arith, f.total, ap length h), f.sent_all, h)
