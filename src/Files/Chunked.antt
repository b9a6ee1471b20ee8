-- ===== src/Files/Chunked.antt =====
-- `Dechunker` of src/files.rs. The sink's calls are the list of pieces that a call of `feed` gives.
pub mod Segments
use argus_ips.Address.{Bytes}
use argus_ips.Base.{
  ◌++◌, ℕ, zero, suc, ◌+◌, ◌-◌, ◌*◌, min, Bool, true, false, not, ◌&&◌, List, [], ◌∷◌, Option, none,
  some, length, take, drop, ltb, leb, ◌==◌, if◌then◌else◌,
}

pub data ChunkState : Type 0 where
  chunk_size extension : ChunkState
  chunk_data data_end : ℕ → ChunkState

pub record Dechunker : Type 0 where
  pub state : ChunkState
  pub size : ℕ
  pub seen_digit : Bool
  pub done : Bool
  pub bad : Bool

-- `Dechunker::default`
abbrev pub new : Dechunker
new = record { state = chunk_size; size = 0; seen_digit = false; done = false; bad = false }

-- `Dechunker::fail`
abbrev pub fail : Dechunker → Dechunker
fail d = record d { bad = true; done = true }

-- `to_digit(16)`
unfoldable pub to_digit : ℕ → Option ℕ
to_digit b =
    if leb 48 b && leb b 57
    then some (b - 48)
    else if leb 97 b && leb b 102
    then some (b - 87)
    else if leb 65 b && leb b 70
    then some (b - 55)
    else none

abbrev pub u32_max : ℕ
u32_max = 4_294_967_295

-- One digit of a chunk's size.
unfoldable pub push_digit : Dechunker → ℕ → Dechunker
unfolding to_digit
push_digit d b = elim (to_digit b) [
  | none ↦ fail d
  | some v ↦
      if leb (d.size * 16 + v) u32_max
      then record d { size = d.size * 16 + v; seen_digit = true }
      else fail d
]

-- The end of a size line.
unfoldable pub end_line : Dechunker → Dechunker
end_line d =
    if not d.seen_digit
    then fail d
    else if d.size == 0
    then record d { done = true }
    else record d { state = chunk_data d.size }

-- One byte of a size line; the last argument tells the extension from the size.
unfoldable pub line_byte : Dechunker → ℕ → Bool → Dechunker
line_byte d b in_extension =
    if b == 10
    then end_line d
    else if b == 13
    then d
    else if b == 59
    then record d { state = extension }
    else if in_extension
    then d
    else push_digit d b

-- The state after data, of which `left` bytes are still to come.
abbrev pub after_data : ℕ → ChunkState
after_data zero = data_end 2
after_data (suc n) = chunk_data (suc n)

unfoldable pub end_byte : Dechunker → ℕ → Dechunker
end_byte d k =
    if leb k 1
    then record d { state = chunk_size; size = 0; seen_digit = false }
    else record d { state = data_end (k - 1) }

-- What one round of the loop leaves: the decoder, the sink's calls and the data not yet read.
pub record Round : Type 0 where
  pub decoder : Dechunker
  pub pieces : List Bytes
  pub rest : Bytes

-- One round of the `while` loop, on data that starts with `b`.
unfoldable pub round : ChunkState → Dechunker → ℕ → Bytes → Round
round chunk_size d b rest = record { decoder = line_byte d b false; pieces = []; rest = rest }
round extension d b rest = record { decoder = line_byte d b true; pieces = []; rest = rest }
round (chunk_data n) d b rest =
    let taken = min n (suc (length rest)) in
    record {
      decoder = record d { state = after_data (n - taken) };
      pieces = take taken (b ∷ rest) ∷ [];
      rest = drop taken (b ∷ rest);
    }
round (data_end k) d b rest = record { decoder = end_byte d k; pieces = []; rest = rest }

-- The loop, of at most as many rounds as the first argument.
unfoldable pub loop : ℕ → Dechunker → Bytes → Dechunker × List Bytes
loop zero d bytes = (d, [])
loop (suc rounds) d [] = (d, [])
loop (suc rounds) d (b ∷ rest) =
    let r = round d.state d b rest in
    let s = loop rounds r.decoder r.rest in if d.done then (d, []) else (s.0, r.pieces ++ s.1)

-- `Dechunker::feed`: no round leaves its data as it was, so one for each byte is enough.
unfoldable pub feed : Dechunker → Bytes → Dechunker × List Bytes
unfolding loop
feed d bytes = loop (length bytes) d bytes
