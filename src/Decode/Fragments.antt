-- ===== src/Decode/Fragments.antt =====
-- `Defragmenter` of src/decode.rs: the table of half-assembled datagrams.
pub mod Assembly
pub mod Complete
pub mod Table
use argus_ips.Address.{Bytes, IpAddr, addr_eq, addr_eq_iff}
use argus_ips.Base.{
  ℕ, zero, suc, ◌+◌, ◌-◌, ◌/◌, ◌%◌, ◌<◌, ◌≤◌, min, Bool, true, false, not, ◌&&◌, ◌||◌, List, [],
  ◌∷◌, ◌++◌, Option, none, some, ◌≡◌, ◌↔◌, ◌>>=◌, length, get_or, set, take, replicate, ltb, leb,
  ◌==◌, if◌then◌else◌, Eq, arith, ==_iff,
}
use argus_ips.Decode.Stats.{DecodeStats}
use argus_ips.HashMap.{HashMap, get, contains_key, insert, remove, retain}
use mathlib.Core.List.{reverse}

pub data FragPolicy : Type 0 where
  first_wins last_wins : FragPolicy

pub record DefragLimits : Type 0 where
  pub max_datagrams : ℕ
  pub max_fragments_per_datagram : ℕ
  pub max_bytes_per_datagram : ℕ
  pub timeout_secs : ℕ
  pub policy : FragPolicy

-- `DefragLimits::default`
abbrev pub default_limits : DefragLimits
default_limits = record {
  max_datagrams = 1024;
  max_fragments_per_datagram = 128;
  max_bytes_per_datagram = 65535;
  timeout_secs = 30;
  policy = first_wins;
}

pub record FragKey : Type 0 where
  pub src : IpAddr
  pub dst : IpAddr
  pub id : ℕ
  pub protocol : ℕ

abbrev pub frag_key_eq : FragKey → FragKey → Bool
frag_key_eq a b =
    addr_eq a.src b.src && addr_eq a.dst b.dst && a.id == b.id && a.protocol == b.protocol

pub frag_key_eq_iff : (a b : FragKey) → (frag_key_eq a b ≡ true) ↔ (a ≡ b)
frag_key_eq_iff a b = ground (
  arith,
  addr_eq_iff a.src b.src,
  addr_eq_iff a.dst b.dst,
  ==_iff a.id b.id,
  ==_iff a.protocol b.protocol,
)

instance abbrev pub frag_key_eq_instance : Eq FragKey
frag_key_eq_instance = record { beq = frag_key_eq; beq_iff = frag_key_eq_iff }

-- An offset and the bytes that a fragment puts there.
abbrev pub Piece : Type 0
Piece = ℕ × Bytes

pub record Partial : Type 0 where
  pub pieces : List Piece
  pub bytes : ℕ
  pub total : Option ℕ
  pub header : Bytes
  pub v6_next_header : Option ℕ
  pub first_seen : ℕ

-- The locals `buf` and `covered` of `assemble`.
pub record Buffer : Type 0 where
  pub buf : Bytes
  pub covered : List Bool

-- The body of the inner loop, for the byte `b` at `place`.
abbrev pub write_byte : Buffer → ℕ → ℕ → Buffer
write_byte s place b =
    if not (get_or s.covered place false)
    then record { buf = set s.buf place b; covered = set s.covered place true }
    else s

-- The inner loop of `assemble`: `at` is `off + i`.
unfoldable pub write_piece : ℕ → ℕ → Bytes → Buffer → Buffer
write_piece total at [] s = s
write_piece total at (b ∷ rest) s =
    let next = write_piece total (suc at) rest (write_byte s at b) in
    if leb total at then s else next

-- The outer loop.
unfoldable pub write_pieces : ℕ → List Piece → Buffer → Buffer
write_pieces total [] s = s
write_pieces total ((off, piece) ∷ ps) s = write_pieces total ps (write_piece total off piece s)

abbrev pub all_true : List Bool → Bool
all_true [] = true
all_true (b ∷ bs) = b && all_true bs

-- The order in which the pieces are applied.
abbrev pub arrival : FragPolicy → List Piece → List Piece
arrival first_wins ps = ps
arrival last_wins ps = reverse ps

unfoldable pub assemble_total : List Piece → ℕ → Option Bytes
unfolding write_pieces write_piece
assemble_total ps total =
    let s =
      write_pieces total ps (record { buf = replicate total 0; covered = replicate total false }) in
    if all_true s.covered then some s.buf else none

-- `Partial::assemble`
unfoldable pub assemble : FragPolicy → Partial → Option Bytes
unfolding assemble_total
assemble policy p = p.total >>= assemble_total (arrival policy p.pieces)

abbrev pub u16_max : ℕ
u16_max = 65535

-- `rebuild_datagram`
unfoldable pub rebuild_datagram : Bytes → Option ℕ → Bytes → Bytes
rebuild_datagram header none payload =
    let total = min (length header + length payload) u16_max in
    set (set (set (set header 2 (total / 256)) 3 (total % 256)) 6 0) 7 0 ++ payload
rebuild_datagram header (some next_header) payload =
    let out = take (min 40 (length header)) header in
    let len = min (length payload) u16_max in
    (if length out == 40
      then set (set (set out 4 (len / 256)) 5 (len % 256)) 6 next_header
      else out)
    ++ payload

pub record Defragmenter : Type 0 where
  pub limits : DefragLimits
  pub table : HashMap FragKey Partial
  pub last_swept : ℕ

-- `Defragmenter::new`
abbrev pub new : DefragLimits → Defragmenter
new limits = record { limits = limits; table = []; last_swept = 0 }

-- `p.first_seen > cutoff`
abbrev pub is_young : ℕ → ℕ → Partial → Bool
is_young now_sec timeout_secs p = ltb now_sec (p.first_seen + timeout_secs)

-- `Defragmenter::sweep`: the new state and the counters.
unfoldable pub sweep : Defragmenter → ℕ → DecodeStats → Defragmenter × DecodeStats
sweep d now_sec stats =
    let table = retain (is_young now_sec d.limits.timeout_secs) d.table in
    if leb now_sec d.last_swept then (d, stats) else (
      record d { table = table; last_swept = now_sec },
      record stats {
        incomplete_datagrams_expired =
            stats.incomplete_datagrams_expired + (length d.table - length table);
      },
    )

-- The arguments of `offer` that describe one fragment.
pub record Fragment : Type 0 where
  pub offset : ℕ
  pub more : Bool
  pub payload : Bytes
  pub header : Bytes
  pub v6_next_header : Option ℕ

abbrev pub empty_partial : ℕ → Partial
empty_partial now_sec = record {
  pieces = [];
  bytes = 0;
  total = none;
  header = [];
  v6_next_header = none;
  first_seen = now_sec;
}

-- `table.entry(key).or_insert_with(..)`
abbrev pub entry_or : Option Partial → ℕ → Partial
entry_or none now_sec = empty_partial now_sec
entry_or (some p) now_sec = p

-- The writes of `offer` to the entry.
unfoldable pub absorb : Partial → Fragment → Partial
absorb p f = record p {
  header = if f.offset == 0 then f.header else p.header;
  v6_next_header = if f.offset == 0 then f.v6_next_header else p.v6_next_header;
  total = if not f.more then some (f.offset + length f.payload) else p.total;
  pieces = p.pieces ++ (f.offset, f.payload) ∷ [];
  bytes = p.bytes + length f.payload;
}

abbrev pub is_empty : Bytes → Bool
is_empty [] = true
is_empty (b ∷ bs) = false

-- `entry.total.is_none() || entry.header.is_empty()`, and `assemble` behind it.
unfoldable pub completed : FragPolicy → Partial → Option Bytes
completed policy p = if is_empty p.header then none else assemble policy p

pub record Offered : Type 0 where
  pub state : Defragmenter
  pub stats : DecodeStats
  pub datagram : Option Bytes

abbrev pub dropped : DecodeStats → DecodeStats
dropped s = record s { fragments_dropped = s.fragments_dropped + 1 }

-- What `offer` does with the entry once the fragment is in it.
unfoldable pub conclude : Defragmenter → FragKey → Partial → DecodeStats → Offered
conclude d key p stats = elim (completed d.limits.policy p) [
  | none ↦ record {
    state = record d { table = insert key p d.table };
    stats = stats;
    datagram = none;
  }
  | some payload ↦ record {
    state = record d { table = remove key (insert key p d.table) };
    stats = record stats { datagrams_reassembled = stats.datagrams_reassembled + 1 };
    datagram = some (rebuild_datagram p.header p.v6_next_header payload);
  }
]

-- The refusals of `offer` before it looks at the entry.
unfoldable pub is_oversize : DefragLimits → Fragment → Bool
is_oversize l f = ltb l.max_bytes_per_datagram (f.offset + length f.payload)

unfoldable pub is_full : Defragmenter → FragKey → Bool
is_full d key = not (contains_key key d.table) && leb d.limits.max_datagrams (length d.table)

-- And the one after.
unfoldable pub is_exhausted : DefragLimits → Partial → Fragment → Bool
is_exhausted l p f =
    leb l.max_fragments_per_datagram (length p.pieces)
    || ltb l.max_bytes_per_datagram (p.bytes + length f.payload)

-- `Defragmenter::offer`
unfoldable pub offer : Defragmenter → FragKey → Fragment → ℕ → DecodeStats → Offered
offer d key f now_sec stats =
    let p = entry_or (get key d.table) now_sec in
    if is_oversize d.limits f || is_full d key
    then record { state = d; stats = dropped stats; datagram = none }
    else if is_exhausted d.limits p f
    then record {
      state = record d { table = insert key p d.table };
      stats = dropped stats;
      datagram = none;
    }
    else conclude d key (absorb p f) stats
