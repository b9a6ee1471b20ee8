-- ===== src/Rules/Flowbits.antt =====
-- `FlowBits` of src/rules.rs: the bits that the rules set on one connection, and how many parts of
-- each rule over several buffers have matched on it.
pub mod Bits
pub mod Parts
use argus_ips.Base.{
  ℕ, ◌+◌, ◌-◌, ◌*◌, ◌/◌, ◌%◌, ◌^◌, max, bit_and, bit_or, has_bit, u64_range, Bool, true, false, not,
  ◌&&◌, List, [], ◌∷◌, Option, none, some, ◌>>=◌, length, get_elem?, set as list_set, replicate,
  leb, ltb, ◌==◌, if◌then◌else◌,
}

pub record FlowBits : Type 0 where
  pub words : Option (List ℕ)
  pub partials : List (ℕ × ℕ)
  pub dense : Option (List ℕ)
  pub stream : ℕ × ℕ

-- `FlowBits::default`
abbrev pub new : FlowBits
new = record { words = none; partials = []; dense = none; stream = (0, 0) }

abbrev pub is_set : FlowBits → ℕ → Bool
is_set f bit = elim f.words [
  | none ↦ false
  | some ws ↦ elim (get_elem? ws (bit / 64)) [ none ↦ false | some word ↦ has_bit word (bit % 64) ]
]

-- `*word |= 1 << b` or `*word &= !(1 << b)`.
abbrev pub write_bit : ℕ → ℕ → Bool → ℕ
write_bit word b on = if on then bit_or word (2 ^ b) else bit_and word (2 ^ 64 - 1 - 2 ^ b)

-- The write of `set` to words that are there; a word out of range is left alone.
abbrev pub write_words : List ℕ → ℕ → Bool → List ℕ
write_words ws bit on = elim (get_elem? ws (bit / 64)) [
  | none ↦ ws
  | some word ↦ list_set ws (bit / 64) (write_bit word (bit % 64) on)
]

-- `vec![0u64; registry_len.div_ceil(64).max(1)]`
abbrev pub fresh_words : ℕ → List ℕ
fresh_words registry_len = replicate (max ((registry_len + 63) / 64) 1) 0

abbrev pub set : FlowBits → ℕ → Bool → ℕ → FlowBits
set f bit on registry_len = elim f.words [
  | none ↦
      if on then record f { words = some (write_words (fresh_words registry_len) bit on) } else f
  | some ws ↦ record f { words = some (write_words ws bit on) }
]

abbrev pub toggle : FlowBits → ℕ → ℕ → FlowBits
toggle f bit registry_len = set f bit (not (is_set f bit)) registry_len

abbrev pub is_empty : FlowBits → Bool
is_empty f =
    elim f.words [ none ↦ true | some ws ↦ false ]
    && elim f.partials [ [] ↦ true | p ∷ ps ↦ false ]
    && elim f.dense [ none ↦ true | some table ↦ false ]
    && f.stream.0 == 0
    && f.stream.1 == 0

-- The sum of a `u64` wraps.
abbrev pub add_stream_bytes : FlowBits → Bool → ℕ → FlowBits
add_stream_bytes f to_server n =
    if to_server
    then record f { stream = ((f.stream.0 + n) % u64_range, f.stream.1) }
    else record f { stream = (f.stream.0, (f.stream.1 + n) % u64_range) }

abbrev pub stream_bytes : FlowBits → ℕ × ℕ
stream_bytes f = f.stream

abbrev pub dense_after : ℕ
dense_after = 64

-- `PART_DONE`
abbrev pub part_done : ℕ
part_done = 0x8000

-- The end of `mark_part`, on the progress that it found: the new progress and the result. A shift of
-- a `u16` takes its amount modulo 16.
abbrev pub mark_mask : ℕ → ℕ → ℕ → ℕ × Bool
mark_mask mask idx total =
    let full : ℕ = 2 ^ (total % 16) - 1 in
    let marked : ℕ = bit_or mask (2 ^ (idx % 16)) in
    if not (bit_and mask part_done == 0)
    then (mask, false)
    else if bit_and marked full == full
    then (bit_or marked part_done, true)
    else (marked, false)

-- `binary_search_by_key` finds the id in the list, which is sorted by id.
abbrev pub has_partial : ℕ → List (ℕ × ℕ) → Bool
has_partial id [] = false
has_partial id ((c, m) ∷ ps) =
    let rest = has_partial id ps in if c == id then true else if ltb id c then false else rest

-- The progress of the id in the list, 0 for one that the search does not find.
abbrev pub partial_of : ℕ → List (ℕ × ℕ) → ℕ
partial_of id [] = 0
partial_of id ((c, m) ∷ ps) =
    let rest = partial_of id ps in if c == id then m else if ltb id c then 0 else rest

-- A write to the id's record, inserted where the search would look for it when it is new.
abbrev pub put_partial : ℕ → ℕ → List (ℕ × ℕ) → List (ℕ × ℕ)
put_partial id v [] = (id, v) ∷ []
put_partial id v ((c, m) ∷ ps) =
    let rest = put_partial id v ps in
    if c == id then (c, v) ∷ ps else if ltb id c then (id, v) ∷ (c, m) ∷ ps else (c, m) ∷ rest

-- `table[i] = m` for each record; an index out of range is a panic, `none`.
abbrev pub put_table : List ℕ → ℕ → ℕ → Option (List ℕ)
put_table table i v = if ltb i (length table) then some (list_set table i v) else none

abbrev pub fill_table : List (ℕ × ℕ) → List ℕ → Option (List ℕ)
fill_table [] table = some table
fill_table ((c, m) ∷ ps) table = put_table table c m >>= λ next. fill_table ps next

-- `mark_part` once the flow has a table.
abbrev pub mark_dense : FlowBits → List ℕ → ℕ → ℕ → ℕ → Option (FlowBits × Bool)
mark_dense f table id idx total = get_elem? table id >>= λ mask. some (
  record f { dense = some (list_set table id (mark_mask mask idx total).0) },
  (mark_mask mask idx total).1,
)

-- The switch from the list to the table.
abbrev pub grow : FlowBits → ℕ → ℕ → Option (List ℕ)
grow f id composites = fill_table f.partials (replicate (max composites (id + 1)) 0)

-- `mark_part` while the flow has a list.
abbrev pub mark_sparse : FlowBits → ℕ → ℕ → ℕ → FlowBits × Bool
mark_sparse f id idx total =
    let r = mark_mask (partial_of id f.partials) idx total in
    (record f { partials = put_partial id r.0 f.partials }, r.1)

abbrev pub mark_part : FlowBits → ℕ → ℕ → ℕ → ℕ → Option (FlowBits × Bool)
mark_part f id idx total composites = elim f.dense [
  | some table ↦ mark_dense f table id idx total
  | none ↦
      if leb dense_after (length f.partials) && not (has_partial id f.partials)
      then (grow f id composites >>= λ table.
          mark_dense (record f { partials = [] }) table id idx total)
      else some (mark_sparse f id idx total)
]
