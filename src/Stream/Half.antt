-- ===== src/Stream/Half.antt =====
-- `StreamHalf` of src/engine.rs, as far as it reassembles: the flags and cursors of the protocol
-- readers are not in it. The map of held segments is a list in the order of its keys.
pub mod Bounds
pub mod Position
pub mod Segments
use argus_ips.Address.{Bytes}
use argus_ips.Base.{
  ℕ, zero, suc, ◌+◌, ◌-◌, ◌%◌, min, Bool, true, false, not, ◌&&◌, List, [], ◌∷◌, ◌++◌, Option, none,
  some, length, take, drop, ltb, leb, ◌==◌, if◌then◌else◌, nat_eq, ◌>>=◌,
}
use argus_ips.Files.Chunked.{Dechunker}
use argus_ips.Files.Hasher.{Digest, FileInfo}
use argus_ips.HashMap.{HashMap, get, insert, remove}
use argus_ips.Stream.Tap.{BodyTap}

abbrev pub seq_mod : ℕ
seq_mod = 4_294_967_296

abbrev pub wrapping_add : ℕ → ℕ → ℕ
wrapping_add a b = (a + b) % seq_mod

-- For sequence numbers, which are below `seq_mod`.
abbrev pub wrapping_sub : ℕ → ℕ → ℕ
wrapping_sub a b = (a + seq_mod - b) % seq_mod

-- `seq_after`: the difference is above 0 as an `i32`.
unfoldable pub seq_after : ℕ → ℕ → Bool
seq_after a b = ltb 0 (wrapping_sub a b) && ltb (wrapping_sub a b) 2_147_483_648

abbrev pub max_ooo_segments : ℕ
max_ooo_segments = 16

pub record StreamHalf (g : Digest) : Type 0 where
  pub buffer : Bytes
  pub stream_cap : ℕ
  pub next_seq : Option ℕ
  pub out_of_order : HashMap ℕ Bytes
  pub dropped : ℕ
  pub tap : Option (BodyTap g)
  pub finished_file : Option FileInfo

-- `BTreeMap::insert` of a key that the map has not.
abbrev pub insert_in_order : ℕ → Bytes → HashMap ℕ Bytes → HashMap ℕ Bytes
insert_in_order k v [] = (k, v) ∷ []
insert_in_order k v ((j, w) ∷ m) =
    if ltb k j then (k, v) ∷ (j, w) ∷ m else (j, w) ∷ insert_in_order k v m

-- A segment that is ahead of the stream: the `match` on the map in `feed`.
unfoldable pub hold_segment : HashMap ℕ Bytes → ℕ → Bytes → HashMap ℕ Bytes
hold_segment m seq bytes = elim (get seq m) [
  | some held ↦
      if ltb (length held) (length bytes)
      then insert seq (held ++ drop (length held) bytes) m
      else m
  | none ↦ if ltb (length m) max_ooo_segments then insert_in_order seq bytes m else m
]

-- `keys().copied().find(|&k| !seq_after(k, next))`
unfoldable pub first_reached : ℕ → HashMap ℕ Bytes → Option ℕ
first_reached next [] = none
first_reached next ((k, v) ∷ m) = if not (seq_after k next) then some k else first_reached next m

-- The segment that a round of the drain takes: the position, where the segment starts, its bytes.
abbrev pub reached : Option ℕ → HashMap ℕ Bytes → Option (ℕ × ℕ × Bytes)
reached none m = none
reached (some next) m =
    first_reached next m >>= λ start. get start m >>= λ bytes. some (next, start, bytes)

abbrev pub advance : Option ℕ → ℕ → Option ℕ
advance none n = none
advance (some next) n = some (wrapping_add next n)

module _ (g : Digest) where
  -- `StreamHalf::new`
  unfoldable pub new : ℕ → StreamHalf g
  new stream_cap = record {
    buffer = [];
    stream_cap = stream_cap;
    next_seq = none;
    out_of_order = [];
    dropped = 0;
    tap = none;
    finished_file = none;
  }

  -- `StreamHalf::init_seq_from_syn`
  unfoldable pub init_seq_from_syn : StreamHalf g → ℕ → StreamHalf g
  init_seq_from_syn s isn = elim s.next_seq [
    | none ↦ record s { next_seq = some (wrapping_add isn 1) }
    | some next ↦ s
  ]

  -- The end of `append`: the tap sees the whole segment.
  unfoldable pub feed_tap : StreamHalf g → Bytes → StreamHalf g
  feed_tap s bytes = elim s.tap [
    | none ↦ s
    | some t ↦
        let t' = argus_ips.Stream.Tap.feed g t bytes in
        if t'.done
        then record s { tap = none; finished_file = argus_ips.Stream.Tap.finish g t' }
        else record s { tap = some t' }
  ]

  -- `StreamHalf::append`
  unfoldable pub append : StreamHalf g → Bytes → StreamHalf g
  append s bytes =
      let taken = min (length bytes) (s.stream_cap - length s.buffer) in
      feed_tap
        (record s {
          buffer = s.buffer ++ take taken bytes;
          dropped = s.dropped + (length bytes - taken);
          next_seq = advance s.next_seq (length bytes);
        })
        bytes

  -- What `drain_out_of_order` does with the segment that it has removed from the map.
  unfoldable pub deliver : StreamHalf g → ℕ → ℕ → Bytes → StreamHalf g
  deliver s next start bytes =
      if seq_after (wrapping_add start (length bytes)) next
      then append s (drop (wrapping_sub next start) bytes)
      else s

  -- `StreamHalf::drain_out_of_order`, of at most `rounds` rounds of its loop.
  unfoldable pub drain : ℕ → StreamHalf g → StreamHalf g
  drain zero s = s
  drain (suc rounds) s = elim (reached s.next_seq s.out_of_order) [
    | none ↦ s
    | some (next, start, bytes) ↦
        drain rounds
          (deliver (record s { out_of_order = remove start s.out_of_order }) next start bytes)
  ]

  -- Each round removes a segment, so one for each is enough.
  unfoldable pub drain_out_of_order : StreamHalf g → StreamHalf g
  drain_out_of_order s = drain (length s.out_of_order) s

  abbrev pub position_or : Option ℕ → ℕ → ℕ
  position_or none seq = seq
  position_or (some next) seq = next

  -- `feed` once `next` is known, for a segment that is not empty.
  unfoldable pub feed_at : StreamHalf g → ℕ → ℕ → Bytes → StreamHalf g × Bool
  feed_at s next seq bytes =
      if seq == next
      then (drain_out_of_order (append s bytes), true)
      else if seq_after seq next
      then (record s { out_of_order = hold_segment s.out_of_order seq bytes }, false)
      else if seq_after (wrapping_add seq (length bytes)) next
      then (if ltb (wrapping_sub next seq) (length bytes)
          then (drain_out_of_order (append s (drop (wrapping_sub next seq) bytes)), true)
          else (s, false))
      else (s, false)

  -- `StreamHalf::feed`: the new state, and whether the buffer grew.
  unfoldable pub feed : StreamHalf g → ℕ → Bytes → StreamHalf g × Bool
  feed s seq bytes =
      let next = position_or s.next_seq seq in
      if length bytes == 0
      then (s, false)
      else feed_at (record s { next_seq = some next }) next seq bytes

  abbrev is_zero : Option ℕ → Bool
  is_zero none = false
  is_zero (some n) = n == 0

  -- The tap that `install_tap` makes.
  abbrev new_tap : StreamHalf g → Option ℕ → Bool → BodyTap g
  new_tap s content_length chunked = record {
    hasher = argus_ips.Files.Hasher.new g;
    remaining = if chunked then none else content_length;
    chunk = if chunked then some argus_ips.Files.Chunked.new else none;
    done = false;
    incomplete = ltb 0 s.dropped;
  }

  -- `StreamHalf::install_tap`
  unfoldable pub install_tap : StreamHalf g → ℕ → Option ℕ → Bool → StreamHalf g
  install_tap s body_offset content_length chunked =
      let fresh = new_tap s content_length chunked in
      let t =
        if leb body_offset (length s.buffer)
        then argus_ips.Stream.Tap.feed g fresh (drop body_offset s.buffer)
        else fresh in
      if is_zero content_length && not chunked
      then s
      else if t.done
      then record s { finished_file = argus_ips.Stream.Tap.finish g t }
      else record s { tap = some t }

  -- `StreamHalf::finish_tap_on_close`
  unfoldable pub finish_tap_on_close : StreamHalf g → StreamHalf g
  finish_tap_on_close s = elim s.tap [
    | none ↦ s
    | some t ↦ record s { tap = none; finished_file = argus_ips.Stream.Tap.finish g t }
  ]
