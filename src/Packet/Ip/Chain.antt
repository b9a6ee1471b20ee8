-- ===== src/Packet/Ip/Chain.antt =====
-- The chain of IPv6 extension headers, as `parse_ipv6_packet` and `ipv6_fragment` of src/packet.rs
-- walk it. The first argument of each loop is the number of headers that may still be passed, which
-- the code counts up in `hops`.
use argus_ips.Address.{Bytes}
use argus_ips.Base.{
  ℕ, zero, suc, ◌+◌, ◌*◌, ◌/◌, ◌%◌, ◌≤◌, ◌≡◌, Bool, true, false, not, ◌||◌, Option, none, some, ltb,
  ◌==◌, if◌then◌else◌, arith,
}
use argus_ips.Packet.Frame.{byte, be16}

-- Hop-by-Hop, Routing and Destination Options.
abbrev pub is_options : ℕ → Bool
is_options h = h == 0 || h == 43 || h == 60

abbrev pub is_extension : ℕ → Bool
is_extension h = is_options h || h == 44 || h == 51

abbrev pub options_len : Bytes → ℕ → ℕ
options_len ip pos = (byte ip (pos + 1) + 1) * 8

abbrev pub auth_len : Bytes → ℕ → ℕ
auth_len ip pos = (byte ip (pos + 1) + 2) * 4

-- The offset and the flag of the fragment header at `pos`.
abbrev pub piece_offset : Bytes → ℕ → ℕ
piece_offset ip pos = be16 ip (pos + 2) / 8 * 8

abbrev pub piece_more : Bytes → ℕ → Bool
piece_more ip pos = not (be16 ip (pos + 2) % 2 == 0)

abbrev pub is_piece : Bytes → ℕ → Bool
is_piece ip pos = piece_more ip pos || ltb 0 (piece_offset ip pos)

-- How `parse_ipv6_packet` leaves its loop: it gives up, or it found the protocol and its offset;
-- with the `is_fragment` that it has set.
pub data Walk : Type 0 where
  opaque : Bool → Walk
  transport : ℕ → ℕ → Bool → Walk

-- The loop of `parse_ipv6_packet`.
unfoldable pub chain : ℕ → Bytes → ℕ → ℕ → ℕ → Bool → Walk
chain zero ip end next pos frag = if is_extension next then opaque frag else transport next pos frag
chain (suc left) ip end next pos frag =
    let past_options = chain left ip end (byte ip pos) (pos + options_len ip pos) frag in
    let past_piece = chain left ip end (byte ip pos) (pos + 8) (frag || is_piece ip pos) in
    let past_auth = chain left ip end (byte ip pos) (pos + auth_len ip pos) frag in
    if is_options next
    then (if ltb end (pos + 2)
        then opaque frag
        else if ltb end (pos + options_len ip pos)
        then opaque frag
        else past_options)
    else if next == 44
    then (if ltb end (pos + 8) then opaque frag else past_piece)
    else if next == 51
    then (if ltb end (pos + 2)
        then opaque frag
        else if ltb end (pos + auth_len ip pos)
        then opaque frag
        else past_auth)
    else transport next pos frag

-- `hops > 8` stops the walk, so nine headers may be passed.
unfoldable pub walk_v6 : Bytes → ℕ → Walk
walk_v6 ip end = chain 9 ip end (byte ip 6) 40 false

-- Where the fragment header of an IPv6 datagram stands.
abbrev pub Found : Type 0
Found = Option ℕ

-- The loop of `ipv6_fragment`, up to the fields that it reads at the place found.
unfoldable pub find_fragment : ℕ → Bytes → ℕ → ℕ → ℕ → Found
find_fragment zero ip end next pos = none
find_fragment (suc left) ip end next pos =
    let past_options = find_fragment left ip end (byte ip pos) (pos + options_len ip pos) in
    let past_auth = find_fragment left ip end (byte ip pos) (pos + auth_len ip pos) in
    if next == 44
    then (if ltb end (pos + 8) then none else if not (is_piece ip pos) then none else some pos)
    else if is_options next
    then (if ltb end (pos + 2)
        then none
        else if ltb end (pos + options_len ip pos)
        then none
        else past_options)
    else if next == 51
    then (if ltb end (pos + 2)
        then none
        else if ltb end (pos + auth_len ip pos)
        then none
        else past_auth)
    else none

abbrev pub frag_of : Walk → Bool
frag_of (opaque f) = f
frag_of (transport n p f) = f

-- The flag stays up once it is.
chain-frag :
    (left : ℕ) (ip : Bytes) (end next pos : ℕ) → frag_of (chain left ip end next pos true) ≡ true
unfolding chain
chain-frag zero ip end next pos = ground arith
chain-frag (suc left) ip end next pos = ground (
  arith,
  chain-frag left ip end (byte ip pos) (pos + options_len ip pos),
  chain-frag left ip end (byte ip pos) (pos + 8),
  chain-frag left ip end (byte ip pos) (pos + auth_len ip pos),
)

-- Whatever fragment header `ipv6_fragment` finds, the parser's walk sees as well.
pub find_fragment-chain :
    (left : ℕ) (ip : Bytes) (end next pos : ℕ) (frag : Bool) {at : ℕ}
    → find_fragment left ip end next pos ≡ some at
    → frag_of (chain left ip end next pos frag) ≡ true
unfolding find_fragment chain
find_fragment-chain zero ip end next pos frag h = cc
find_fragment-chain (suc left) ip end next pos frag {at} h = ground (
  arith,
  find_fragment-chain left ip end (byte ip pos) (pos + options_len ip pos) frag {at = at},
  find_fragment-chain left ip end (byte ip pos) (pos + auth_len ip pos) frag {at = at},
  chain-frag left ip end (byte ip pos) (pos + 8),
)

-- The header that is found lies before `end`, at or behind `pos`.
pub find_fragment-le :
    (left : ℕ) (ip : Bytes) (end next pos : ℕ) {at : ℕ}
    → find_fragment left ip end next pos ≡ some at
    → (pos ≤ at) × (at + 8 ≤ end)
unfolding find_fragment
find_fragment-le zero ip end next pos h = cc
find_fragment-le (suc left) ip end next pos {at} h = ground (
  arith,
  find_fragment-le left ip end (byte ip pos) (pos + options_len ip pos) {at = at},
  find_fragment-le left ip end (byte ip pos) (pos + auth_len ip pos) {at = at},
)
