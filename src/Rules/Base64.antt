-- ===== src/Rules/Base64.antt =====
-- `base64_decode` of src/rules.rs: the tolerant decoder, and the term that applies it.
pub mod RoundTrip
use argus_ips.Address.{Bytes}
use argus_ips.Base.{
  ℕ, ◌+◌, ◌-◌, ◌*◌, ◌/◌, ◌%◌, ◌^◌, min, ℤ, saturating_add, Bool, ◌&&◌, ◌||◌, List, [], ◌∷◌, Option,
  none, some, ◌>>=◌, length, slice, ltb, leb, ◌==◌, if◌then◌else◌,
}
use argus_ips.Rules.Number.{base_of}
use argus_ips.Rules.Vars.{shift}

-- What a character is to the decoder.
pub data Symbol : Type 0 where
  value : ℕ → Symbol
  padding other : Symbol

abbrev pub symbol : ℕ → Symbol
symbol b =
    if leb 65 b && leb b 90
    then value (b - 65)
    else if leb 97 b && leb b 122
    then value (b - 97 + 26)
    else if leb 48 b && leb b 57
    then value (b - 48 + 52)
    else if b == 43 || b == 45
    then value 62
    else if b == 47 || b == 95
    then value 63
    else if b == 61
    then padding
    else other

-- The loop: `acc` has the bits that no octet has taken yet, and `bits` says how many they are. After
-- an octet the code masks `acc` to its lowest bits, which is the remainder; `as u8` is one too.
abbrev pub decode_from : ℕ → ℕ → Bytes → Bytes
decode_from acc bits [] = []
decode_from acc bits (b ∷ bs) = elim (symbol b) [
  | padding ↦ []
  | other ↦ decode_from acc bits bs
  | value v ↦
      let acc' : ℕ = (acc * 64 + v) % 2 ^ 32 in
      let bits' : ℕ = bits + 6 in
      let more = decode_from acc' bits' bs in
      let rest = decode_from (acc' % 2 ^ (bits' - 8)) (bits' - 8) bs in
      if leb 8 bits' then (acc' / 2 ^ (bits' - 8) % 256) ∷ rest else more
]

abbrev pub base64_decode : Bytes → Bytes
base64_decode input = decode_from 0 0 input

pub record Base64Decode : Type 0 where
  pub bytes : ℕ
  pub offset : ℤ
  pub relative : Bool

abbrev pub base64_eval : Base64Decode → Bytes → ℕ → Option Bytes
base64_eval d bs cursor = shift (base_of d.relative cursor) d.offset >>= λ at.
    let start : ℕ = min at (length bs) in
    let stop : ℕ =
      if d.bytes == 0 then length bs else min (saturating_add start d.bytes) (length bs) in
    some (base64_decode (slice bs start stop))
