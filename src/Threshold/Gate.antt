-- ===== src/Threshold/Gate.antt =====
-- `Gate` of src/threshold.rs: the windows that count matches, and the bits (`xbits`).
pub mod Counting
pub mod Tables
use Prim.Native.String.{String}
use argus_ips.Address.{IpAddr, addr_eq, addr_eq_iff, addr_eq_instance, string_eq, pair_eq_instance}
use argus_ips.Base.{
  ℕ, suc, ◌+◌, ◌-◌, ◌*◌, ◌%◌, ◌^◌, ◌<◌, ◌≤◌, max, Bool, true, false, not, ◌&&◌, List, [], ◌∷◌,
  Option, none, some, ◌≡◌, ◌↔◌, Eq, length, ltb, leb, if◌then◌else◌, arith, nat_eq,
}
use argus_ips.HashMap.{HashMap, get, insert, remove, retain}

pub data Kind : Type 0 where
  limit every both over : Kind

pub data Track : Type 0 where
  by_src by_dst by_pair by_rule : Track

pub record Threshold : Type 0 where
  pub kind : Kind
  pub track : Track
  pub count : ℕ
  pub seconds : ℕ

pub data XbitVerb : Type 0 where
  set unset toggle is_set is_not_set : XbitVerb

pub record XbitOp : Type 0 where
  pub verb : XbitVerb
  pub name : String
  pub track : Track
  pub expire_secs : ℕ

pub record XbitSpec : Type 0 where
  pub ops : List XbitOp
  pub noalert : Bool

pub data Key : Type 0 where
  of_src : IpAddr → Key
  of_dst : IpAddr → Key
  of_pair : IpAddr → IpAddr → Key
  of_rule : Key

-- The fields of `Alert` that the gate and its order of counting read; the time is in milliseconds.
pub record Alert : Type 0 where
  pub timestamp : ℕ
  pub sid : ℕ
  pub src : IpAddr
  pub dst : IpAddr
  pub port : ℕ
  pub message : String

pub record Window : Type 0 where
  pub start_ms : ℕ
  pub count : ℕ
  pub reported : Bool

abbrev pub max_windows : ℕ
max_windows = 200_000

abbrev pub key_eq : Key → Key → Bool
key_eq (of_src a) (of_src b) = addr_eq a b
key_eq (of_dst a) (of_dst b) = addr_eq a b
key_eq (of_pair a b) (of_pair c d) = addr_eq a c && addr_eq b d
key_eq of_rule of_rule = true
key_eq _ _ = false

pub key_eq_iff : (a b : Key) → (key_eq a b ≡ true) ↔ (a ≡ b)
key_eq_iff (of_src a) (of_src b) = ground (arith, addr_eq_iff a b)
key_eq_iff (of_dst a) (of_dst b) = ground (arith, addr_eq_iff a b)
key_eq_iff (of_pair a b) (of_pair c d) = ground (arith, addr_eq_iff a c, addr_eq_iff b d)
key_eq_iff of_rule of_rule = ground arith
key_eq_iff _ _ = ground arith

instance abbrev pub key_eq_instance : Eq Key
key_eq_instance = record { beq = key_eq; beq_iff = key_eq_iff }

pub record Gate : Type 0 where
  pub windows : HashMap (ℕ × Key) Window
  pub newest_ms : ℕ
  pub bits : HashMap (String × Key) ℕ

-- `Gate::default`
abbrev pub empty_gate : Gate
empty_gate = record { windows = []; newest_ms = 0; bits = [] }

-- The `match` on a track in `admit` and in `bit_key`.
unfoldable pub track_key : Track → Alert → Key
track_key by_src a = of_src a.src
track_key by_dst a = of_dst a.dst
track_key by_pair a = of_pair a.src a.dst
track_key by_rule a = of_rule

-- `Gate::bit_key`
unfoldable pub bit_key : Alert → XbitOp → String × Key
bit_key a op = (op.name, track_key op.track a)

-- `Gate::bit_is_set`
unfoldable pub bit_is_set : Gate → Alert → XbitOp → Bool
bit_is_set g a op = elim (get (bit_key a op) g.bits) [
  | none ↦ false
  | some until ↦ ltb a.timestamp until
]

-- What one operation asks of the state, in `xbits_hold`.
unfoldable pub op_holds : XbitVerb → Gate → Alert → XbitOp → Bool
op_holds is_set g a op = bit_is_set g a op
op_holds is_not_set g a op = not (bit_is_set g a op)
op_holds _ g a op = true

-- `Gate::xbits_hold`
unfoldable pub xbits_hold : Gate → Alert → List XbitOp → Bool
xbits_hold g a [] = true
xbits_hold g a (op ∷ ops) = op_holds op.verb g a op && xbits_hold g a ops

-- The effect of one operation, the `match` of `xbits_apply`.
unfoldable pub apply_op : XbitVerb → Gate → Alert → XbitOp → Gate
apply_op set g a op = record g {
  bits = insert (bit_key a op) (a.timestamp + op.expire_secs * 1000) g.bits;
}
apply_op unset g a op = record g { bits = remove (bit_key a op) g.bits }
apply_op toggle g a op =
    if bit_is_set g a op
    then record g { bits = remove (bit_key a op) g.bits }
    else record g { bits = insert (bit_key a op) (a.timestamp + op.expire_secs * 1000) g.bits }
apply_op is_set g a op = g
apply_op is_not_set g a op = g

unfoldable pub apply_ops : Gate → Alert → List XbitOp → Gate
apply_ops g a [] = g
apply_ops g a (op ∷ ops) = apply_ops (apply_op op.verb g a op) a ops

-- The clock of the gate, and the sweep of bits that have ended when there are too many.
unfoldable pub sweep_bits : Gate → ℕ → Gate
sweep_bits g now =
    let horizon = max g.newest_ms now in
    if leb max_windows (length g.bits)
    then record g { newest_ms = horizon; bits = retain (λ until. ltb horizon until) g.bits }
    else record g { newest_ms = horizon }

-- `Gate::xbits_apply`
unfoldable pub xbits_apply : Gate → Alert → XbitSpec → Gate
xbits_apply g a spec = apply_ops (sweep_bits g a.timestamp) a spec.ops

-- The decision of `admit` on a window whose count includes this match: the window that is left,
-- and whether the match is reported.
unfoldable pub decide : Kind → ℕ → Window → Window × Bool
decide limit n w = (w, leb w.count n)
decide every n w = if leb n w.count then (record w { count = 0 }, true) else (w, false)
decide both n w =
    if leb n w.count && not w.reported then (record w { reported = true }, true) else (w, false)
decide over n w = (w, ltb n w.count)

abbrev pub u32_mod : ℕ
u32_mod = 2 ^ 32

abbrev pub fresh : ℕ → Window
fresh now = record { start_ms = now; count = 0; reported = false }

-- The window that a match is counted in: `entry().or_insert`, and a new one if it has ended.
unfoldable pub current : Option Window → ℕ → ℕ → Window
current none now span = fresh now
current (some w) now span = if leb (w.start_ms + span) now then fresh now else w

-- The clock, and the sweep of windows longer than any rule's when there are too many.
unfoldable pub sweep_windows : Gate → ℕ → Gate
sweep_windows g now =
    let horizon = max g.newest_ms now in
    if leb max_windows (length g.windows)
    then record g {
      windows = retain (λ w. ltb (horizon - w.start_ms) 86_400_000) g.windows;
      newest_ms = horizon;
    }
    else record g { newest_ms = horizon }

-- The window that `admit` leaves under the rule's key, and its answer.
unfoldable pub count_match : Option Window → ℕ → Threshold → Window × Bool
unfolding current decide
count_match held now rule =
    let w = current held now (rule.seconds * 1000) in
    decide rule.kind rule.count (record w { count = (w.count + 1) % u32_mod })

-- `Gate::admit`
unfoldable pub admit : Gate → Alert → Threshold → Gate × Bool
admit g a rule =
    let g' = sweep_windows g a.timestamp in
    let key : ℕ × Key = (a.sid, track_key rule.track a) in
    let (w, reported) = count_match (get key g'.windows) a.timestamp rule in
    (record g' { windows = insert key w g'.windows }, reported)
