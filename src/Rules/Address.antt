-- ===== src/Rules/Address.antt =====
-- `IpMatch`, `prefix_eq` and `PortMatch` of src/rules.rs: the addresses and ports of a rule's header.
pub mod Prefix
use argus_ips.Address.{Bytes, IpAddr, v4, v6, bytes_eq}
use argus_ips.Base.{
  ℕ, suc, ◌-◌, ◌*◌, ◌/◌, ◌%◌, ◌^◌, Bool, true, false, not, ◌&&◌, ◌||◌, List, [], ◌∷◌, take, get_or,
  leb, ◌==◌, bool_eq, if◌then◌else◌,
}

pub record IpMatch : Type 0 where
  pub negate : Bool
  pub prefixes : List (IpAddr × ℕ)

-- The octet at the end of the compared bytes; the code's mask `0xFF << (8 - rem)` keeps its high
-- `rem` bits, which are its quotient by `2 ^ (8 - rem)`.
abbrev pub high_bits : ℕ → ℕ → ℕ
high_bits b rem = b / 2 ^ (8 - rem)

-- `prefix_eq` on the bytes of one family.
abbrev pub bytes_prefix_eq : Bytes → Bytes → ℕ → Bool
bytes_prefix_eq a b bits =
    let full_bytes : ℕ = bits / 8 in
    let rem : ℕ = bits % 8 in
    if not (bytes_eq (take full_bytes a) (take full_bytes b))
    then false
    else if rem == 0
    then true
    else high_bits (get_or a full_bytes 0) rem == high_bits (get_or b full_bytes 0) rem

abbrev pub prefix_eq : IpAddr → IpAddr → ℕ → Bool
prefix_eq (v4 a) (v4 b) bits = bytes_prefix_eq a b bits
prefix_eq (v6 a) (v6 b) bits = bytes_prefix_eq a b bits
prefix_eq (v4 a) (v6 b) bits = false
prefix_eq (v6 a) (v4 b) bits = false

-- `any` over the prefixes.
abbrev pub contains_any : List (IpAddr × ℕ) → IpAddr → Bool
contains_any [] addr = false
contains_any ((net, bits) ∷ ps) addr = prefix_eq net addr bits || contains_any ps addr

abbrev pub ip_contains : IpMatch → IpAddr → Bool
ip_contains m addr = contains_any m.prefixes addr

abbrev pub ip_matches : IpMatch → IpAddr → Bool
ip_matches m addr = elim m.prefixes [
  | [] ↦ not m.negate
  | p ∷ ps ↦ not (bool_eq (ip_contains m addr) m.negate)
]

pub record PortMatch : Type 0 where
  pub negate : Bool
  pub ranges : List (ℕ × ℕ)

abbrev pub in_ranges : List (ℕ × ℕ) → ℕ → Bool
in_ranges [] port = false
in_ranges ((lo, hi) ∷ rs) port = (leb lo port && leb port hi) || in_ranges rs port

abbrev pub port_matches : PortMatch → ℕ → Bool
port_matches m port = elim m.ranges [
  | [] ↦ not m.negate
  | r ∷ rs ↦ not (bool_eq (in_ranges m.ranges port) m.negate)
]
