-- ===== src/Threshold/Gate/Tables.antt =====
-- The tables of the gate: keys are independent, a sweep changes no answer, and what a rule's bit
-- operations do to its own bit and to others.
use Prim.Native.String.{String}
use argus_ips.Address.{string_eq, pair_eq_instance}
use argus_ips.Base.{
  nat_eq, ℕ, ◌+◌, ◌-◌, ◌*◌, ◌<◌, ◌≤◌, max, Bool, true, false, not, Option, none, some, ◌≡◌, refl,
  ◌∙◌, ◌>>=◌, length, ltb, leb, if◌then◌else◌, arith, Bool-cases, inl, inr,
}
use argus_ips.HashMap.{Distinct, get, get-insert, get-retain, retain-Distinct}
use argus_ips.Threshold.Gate.{
  Threshold, XbitOp, XbitVerb, set, unset, toggle, is_set, is_not_set, Key, Alert, Window, Gate,
  max_windows, key_eq_instance, track_key, bit_key, sweep_bits, current, count_match, sweep_windows,
  admit,
}

pub record IsValid (g : Gate) : Type 0 where
  pub windows_distinct : Distinct g.windows
  pub bits_distinct : Distinct g.bits

abbrev pub window_key : Threshold → Alert → ℕ × Key
window_key r a = (a.sid, track_key r.track a)

-- What an alert finds under a key, once the sweep before it is done.
abbrev lives : ℕ → Window → Bool
lives horizon w = ltb (horizon - w.start_ms) 86_400_000

get-sweep_windows :
    (g : Gate) (now : ℕ) (k : ℕ × Key)
    → IsValid g
    → get k (sweep_windows g now).windows ≡ (
        if leb max_windows (length g.windows)
        then (get k g.windows >>= λ w. if lives (max g.newest_ms now) w then some w else none)
        else get k g.windows)
unfolding sweep_windows
get-sweep_windows g now k v = elim (Bool-cases (leb max_windows (length g.windows))) [
  | inl h ↦ rw h (get-retain (lives (max g.newest_ms now)) k g.windows v.windows_distinct)
  | inr h ↦ rw h refl
]

count_match-current :
    (o o' : Option Window) (now : ℕ) (r : Threshold)
    → current o now (r.seconds * 1000) ≡ current o' now (r.seconds * 1000)
    → count_match o now r ≡ count_match o' now r
unfolding count_match
count_match-current o o' now r e = rw e refl

-- A window that the sweep may drop had ended, for a rule of a day at most.
current_dead :
    (o : Option Window) (now span : ℕ)
    → span ≤ 86_400_000
    → current (o >>= λ w. if lives now w then some w else none) now span ≡ current o now span
unfolding current
current_dead none now span h = refl
current_dead (some w) now span h = ground arith

current_swept :
    (g : Gate) (now span : ℕ) (k : ℕ × Key)
    → IsValid g
    → span ≤ 86_400_000
    → g.newest_ms ≤ now
    → current (get k (sweep_windows g now).windows) now span ≡ current (get k g.windows) now span
current_swept g now span k v s o =
    let m : max g.newest_ms now ≡ now = omega arith in
    rw (get-sweep_windows g now k v, m)
      (elim (Bool-cases (leb max_windows (length g.windows))) [
        | inl h ↦ rw h (current_dead (get k g.windows) now span s)
        | inr h ↦ rw h refl
      ])

admit-get :
    (g : Gate) (a : Alert) (r : Threshold)
    → ((admit g a r).1
        ≡ (count_match
            (get (window_key r a) (sweep_windows g a.timestamp).windows)
            a.timestamp
            r).1)
      × (get (window_key r a) (admit g a r).0.windows
          ≡ some
              (count_match
                (get (window_key r a) (sweep_windows g a.timestamp).windows)
                a.timestamp
                r).0)
unfolding admit
admit-get g a r =
    let k = window_key r a in
    let m = (sweep_windows g a.timestamp).windows in
    let w = (count_match (get k m) a.timestamp r).0 in
    let e = (pair_eq_instance {A = ℕ} {B = Key}).beq_iff in
    (refl, get-insert k k w m ∙ rw ((e k k).1 refl) refl)

-- In a valid gate `admit` answers from the window held under the rule's key alone, and leaves the
-- new window there; the sweep of a full table changes no answer, for a rule of at most a day and
-- an alert that is not older than the newest.
pub admit-count_match :
    (g : Gate) (a : Alert) (r : Threshold)
    → IsValid g
    → r.seconds ≤ 86_400
    → g.newest_ms ≤ a.timestamp
    → ((admit g a r).1 ≡ (count_match (get (window_key r a) g.windows) a.timestamp r).1)
      × (get (window_key r a) (admit g a r).0.windows
          ≡ some (count_match (get (window_key r a) g.windows) a.timestamp r).0)
admit-count_match g a r v s o =
    let k = window_key r a in
    let same = current_swept g a.timestamp (r.seconds * 1000) k v (omega arith) o in
    let e = count_match-current _ _ a.timestamp r same in rw (← e) (admit-get g a r)

-- In a valid gate whose table is not full, `admit` for one key leaves every other window as it
-- was.
pub admit_other :
    (g : Gate) (a : Alert) (r : Threshold) (k : ℕ × Key)
    → IsValid g
    → length g.windows < max_windows
    → (pair_eq_instance {A = ℕ} {B = Key}).beq (window_key r a) k ≡ false
    → get k (admit g a r).0.windows ≡ get k g.windows
unfolding admit
admit_other g a r k v room ne =
    let m = (sweep_windows g a.timestamp).windows in
    let w = (count_match (get (window_key r a) m) a.timestamp r).0 in
    let full : leb max_windows (length g.windows) ≡ false = ground arith in
    get-insert (window_key r a) k w m ∙ rw ne (get-sweep_windows g a.timestamp k v ∙ rw full refl)

sweep_windows-IsValid : (g : Gate) (now : ℕ) → IsValid g → IsValid (sweep_windows g now)
unfolding sweep_windows
sweep_windows-IsValid g now v = elim (Bool-cases (leb max_windows (length g.windows))) [
  | inl h ↦ rw h (record {
    windows_distinct = retain-Distinct (lives (max g.newest_ms now)) g.windows v.windows_distinct;
    bits_distinct = v.bits_distinct;
  })
  | inr h ↦ rw h (record { windows_distinct = v.windows_distinct; bits_distinct = v.bits_distinct })
]

sweep_bits-IsValid : (g : Gate) (now : ℕ) → IsValid g → IsValid (sweep_bits g now)
unfolding sweep_bits
sweep_bits-IsValid g now v = elim (Bool-cases (leb max_windows (length g.bits))) [
  | inl h ↦ rw h (record {
    windows_distinct = v.windows_distinct;
    bits_distinct =
        retain-Distinct (λ until. ltb (max g.newest_ms now) until) g.bits v.bits_distinct;
  })
  | inr h ↦ rw h (record { windows_distinct = v.windows_distinct; bits_distinct = v.bits_distinct })
]

-- What one operation makes of its own bit.
abbrev pub effect : XbitVerb → Bool → Bool
effect set b = true
effect unset b = false
effect toggle b = not b
effect is_set b = b
effect is_not_set b = b

module _ (g : Gate) (a : Alert) (op : XbitOp) (v : IsValid g) where
  abbrev k : String × Key
  k = bit_key a op

  abbrev until : ℕ
  until = a.timestamp + op.expire_secs * 1000
