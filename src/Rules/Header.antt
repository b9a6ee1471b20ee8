-- ===== src/Rules/Header.antt =====
-- The header conditions of a rule (src/rules.rs): `LenTest`, `TcpFlagTest`, `StreamTest`, `PacketTests`
-- and `HeaderMatch`.
use argus_ips.Address.{IpAddr}
use argus_ips.Base.{
  ℕ, ◌-◌, bit_and, Bool, true, false, not, ◌&&◌, ◌||◌, Option, none, some, length, ltb, leb, ◌==◌,
  is_none_or, if◌then◌else◌,
}
use argus_ips.Packet.Transport.{Packet, proto_icmp, proto_icmpv6, proto_tcp}
use argus_ips.Rules.Address.{IpMatch, PortMatch, ip_matches, port_matches}
use argus_ips.Rules.Flowbits.{FlowBits, stream_bytes}

-- `Direction` of src/engine.rs.
pub data Orientation : Type 0 where
  any to_server to_client : Orientation

pub data LenTest : Type 0 where
  eq lt gt le ge : ℕ → LenTest
  between : ℕ → ℕ → LenTest

abbrev pub len_holds : LenTest → ℕ → Bool
len_holds (eq a) n = n == a
len_holds (lt a) n = ltb n a
len_holds (gt a) n = ltb a n
len_holds (le a) n = leb n a
len_holds (ge a) n = leb a n
len_holds (between a b) n = ltb a n && ltb n b

pub data FlagMode : Type 0 where
  exact all at_least_one none_of : FlagMode

pub record TcpFlagTest : Type 0 where
  pub mode : FlagMode
  pub flags : ℕ
  pub ignore : ℕ

-- The comparison of the flags that are left.
abbrev pub flags_compare : FlagMode → ℕ → ℕ → Bool
flags_compare exact seen want = seen == want
flags_compare all seen want = bit_and seen want == want
flags_compare at_least_one seen want = not (bit_and seen want == 0)
flags_compare none_of seen want = bit_and seen want == 0

-- `x & !ignore` in an octet.
abbrev pub without : ℕ → ℕ → ℕ
without x ignore = bit_and x (255 - ignore)

abbrev pub flags_hold : TcpFlagTest → Packet → Bool
flags_hold t p =
    if not (p.protocol == proto_tcp)
    then false
    else flags_compare t.mode (without p.tcp_flags t.ignore) (without t.flags t.ignore)

pub data StreamSide : Type 0 where
  server client both either : StreamSide

pub data StreamOp : Type 0 where
  less greater equal not_equal at_most at_least : StreamOp

pub record StreamTest : Type 0 where
  pub side : StreamSide
  pub op : StreamOp
  pub bytes : ℕ

abbrev pub compare_bytes : StreamOp → ℕ → ℕ → Bool
compare_bytes less bytes n = ltb n bytes
compare_bytes greater bytes n = ltb bytes n
compare_bytes equal bytes n = n == bytes
compare_bytes not_equal bytes n = not (n == bytes)
compare_bytes at_most bytes n = leb n bytes
compare_bytes at_least bytes n = leb bytes n

abbrev pub side_holds : StreamSide → (ℕ → Bool) → ℕ → ℕ → Bool
side_holds server cmp to_server_bytes to_client_bytes = cmp to_client_bytes
side_holds client cmp to_server_bytes to_client_bytes = cmp to_server_bytes
side_holds both cmp to_server_bytes to_client_bytes = cmp to_client_bytes && cmp to_server_bytes
side_holds either cmp to_server_bytes to_client_bytes = cmp to_client_bytes || cmp to_server_bytes

abbrev pub stream_holds : StreamTest → Option FlowBits → Bool
stream_holds t none = false
stream_holds t (some bits) =
    side_holds t.side (compare_bytes t.op t.bytes) (stream_bytes bits).0 (stream_bytes bits).1

pub record PacketTests : Type 0 where
  pub icmp_type : Option LenTest
  pub icmp_code : Option LenTest
  pub window : Option LenTest
  pub ip_proto : Option LenTest
  pub flags : Option TcpFlagTest
  pub stream : Option StreamTest

abbrev pub tests_hold : PacketTests → Packet → Bool
tests_hold x p =
    let icmp : Bool = p.protocol == proto_icmp || p.protocol == proto_icmpv6 in
    is_none_or x.icmp_type (λ t. icmp && len_holds t p.icmp_type)
    && is_none_or x.icmp_code (λ t. icmp && len_holds t p.icmp_code)
    && is_none_or x.window (λ t. p.protocol == proto_tcp && len_holds t p.tcp_window)
    && is_none_or x.ip_proto (λ t. len_holds t p.protocol)
    && is_none_or x.flags (λ t. flags_hold t p)

pub record HeaderMatch : Type 0 where
  pub extra : Option PacketTests
  pub proto : Option ℕ
  pub src_ip : Option IpMatch
  pub dst_ip : Option IpMatch
  pub src_port : Option PortMatch
  pub dst_port : Option PortMatch
  pub payload_len : Option LenTest

-- The conditions on the two ends, as the client and the server.
abbrev pub ends_match : HeaderMatch → IpAddr → ℕ → IpAddr → ℕ → Bool
ends_match h src src_port dst dst_port =
    is_none_or h.src_ip (λ m. ip_matches m src)
    && is_none_or h.dst_ip (λ m. ip_matches m dst)
    && is_none_or h.src_port (λ m. port_matches m src_port)
    && is_none_or h.dst_port (λ m. port_matches m dst_port)

abbrev pub is_to_client : Orientation → Bool
is_to_client any = false
is_to_client to_server = false
is_to_client to_client = true

-- `HeaderMatch::matches`
abbrev pub matches : HeaderMatch → Packet → Orientation → Bool
matches h p direction =
    is_none_or h.proto (λ proto. p.protocol == proto)
    && is_none_or h.payload_len (λ t. len_holds t (length p.payload))
    && is_none_or h.extra (λ x. tests_hold x p)
    && (if is_to_client direction
        then ends_match h p.dst p.dst_port p.src p.src_port
        else ends_match h p.src p.src_port p.dst p.dst_port)

abbrev pub is_none {ℓ} : {A : Type ℓ} → Option A → Bool
is_none none = true
is_none (some a) = false

abbrev pub is_any : HeaderMatch → Bool
is_any h =
    is_none h.proto
    && is_none h.src_ip
    && is_none h.dst_ip
    && is_none h.src_port
    && is_none h.dst_port
    && is_none h.payload_len
    && is_none h.extra
