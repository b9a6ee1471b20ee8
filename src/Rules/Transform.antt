-- ===== src/Rules/Transform.antt =====
-- `Transform` of src/rules.rs: the changes made to a buffer before a rule's terms look at it.
pub mod Normal
use argus_ips.Address.{Bytes, bytes_eq}
use argus_ips.Base.{
  ℕ, zero, suc, ◌+◌, ◌*◌, Bool, true, false, not, ◌&&◌, ◌||◌, List, [], ◌∷◌, ◌++◌, map, Option,
  none, some, ltb, leb, ◌==◌, if◌then◌else◌,
}
use argus_ips.Rules.Number.{radix_digit}
use argus_ips.Rules.Search.{to_lower}

pub data Transform : Type 0 where
  percent_decode url_decode header_lowercase strip_whitespace compress_whitespace : Transform
  sha1 md5 sha256 : Transform

-- The digests of the `md5` and `sha2` crates, and `sha1` of src/files.rs, which is not modelled.
pub record Digests : Type 0 where
  pub sha1_of : Bytes → Bytes
  pub md5_of : Bytes → Bytes
  pub sha256_of : Bytes → Bytes

abbrev pub is_ws : ℕ → Bool
is_ws b = b == 32 || b == 9 || b == 13 || b == 10 || b == 11 || b == 12

abbrev pub any_byte : (ℕ → Bool) → Bytes → Bool
any_byte p [] = false
any_byte p (b ∷ bs) = p b || any_byte p bs

-- `%HH` at the front: the byte it names.
abbrev pub escape : Bytes → Option ℕ
escape (c ∷ h ∷ l ∷ bs) =
    if c == 37
    then elim (radix_digit 16 h) [
      | none ↦ none
      | some hi ↦ elim (radix_digit 16 l) [ none ↦ none | some lo ↦ some (hi * 16 + lo) ]
    ]
    else none
escape (c ∷ h ∷ []) = none
escape (c ∷ []) = none
escape [] = none

-- A byte that is no escape.
abbrev pub plain_byte : Bool → ℕ → ℕ
plain_byte plus b = if plus && b == 43 then 32 else b

-- The loop over the bytes; the number says how many bytes of an escape are still to be passed.
abbrev pub decode_loop : Bool → ℕ → Bytes → Bytes
decode_loop plus skip [] = []
decode_loop plus (suc skip) (b ∷ bs) = decode_loop plus skip bs
decode_loop plus zero (b ∷ bs) =
    let one = decode_loop plus 0 bs in
    let three = decode_loop plus 2 bs in
    elim (escape (b ∷ bs)) [ none ↦ plain_byte plus b ∷ one | some v ↦ v ∷ three ]

-- `(out != data).then_some(out)`
abbrev pub changed : Bytes → Bytes → Option Bytes
changed out bs = if bytes_eq out bs then none else some out

abbrev pub percent : Bool → Bytes → Option Bytes
percent plus bs =
    if any_byte (λ b. b == 37 || (plus && b == 43)) bs
    then changed (decode_loop plus 0 bs) bs
    else none

abbrev pub has_colon : Bytes → Bool
has_colon [] = false
has_colon (b ∷ bs) =
    let rest = has_colon bs in if b == 10 then false else if b == 58 then true else rest

-- The lines, each lower-cased up to its colon if it has one; the flag says that the name is over.
abbrev pub lower_lines : Bool → Bytes → Bytes
lower_lines past [] = []
lower_lines past (b ∷ bs) =
    let next = lower_lines (not (has_colon bs)) bs in
    let after = lower_lines true bs in
    let before = lower_lines false bs in
    if b == 10 then b ∷ next else if past || b == 58 then b ∷ after else to_lower b ∷ before

abbrev pub header_lower : Bytes → Bytes
header_lower bs = lower_lines (not (has_colon bs)) bs

abbrev pub strip : Bytes → Bytes
strip [] = []
strip (b ∷ bs) = let rest = strip bs in if is_ws b then rest else b ∷ rest

-- The flag says that the last byte of the output is a space.
abbrev pub compress_from : Bool → Bytes → Bytes
compress_from spaced [] = []
compress_from spaced (b ∷ bs) =
    let dropped = compress_from spaced bs in
    let space = compress_from true bs in
    let other = compress_from false bs in
    if is_ws b then (if spaced then dropped else 32 ∷ space) else b ∷ other

abbrev pub compress : Bytes → Bytes
compress bs = compress_from false bs

module _ (d : Digests) where
  abbrev pub apply : Transform → Bytes → Option Bytes
  apply percent_decode bs = percent false bs
  apply url_decode bs = percent true bs
  apply header_lowercase bs = changed (header_lower bs) bs
  apply strip_whitespace bs = if any_byte is_ws bs then some (strip bs) else none
  apply compress_whitespace bs = changed (compress bs) bs
  apply sha1 bs = some (d.sha1_of bs)
  apply md5 bs = some (d.md5_of bs)
  apply sha256 bs = some (d.sha256_of bs)

  -- One round of `apply_transforms`.
  abbrev pub apply_one : Transform → Bytes → Bytes
  apply_one t bs = elim (apply t bs) [ none ↦ bs | some next ↦ next ]

  abbrev pub apply_transforms : List Transform → Bytes → Bytes
  apply_transforms [] bs = bs
  apply_transforms (t ∷ ts) bs = apply_transforms ts (apply_one t bs)
