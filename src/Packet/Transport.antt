-- ===== src/Packet/Transport.antt =====
-- `Packet` of src/packet.rs and `parse_transport`. The payload array is the list of its first
-- `payload_len` bytes, which is all that `payload()` shows; `ts` stays the caller's.
use argus_ips.Address.{Bytes, IpAddr, v4}
use argus_ips.Base.{
  ℕ, ◌*◌, ◌/◌, min, Bool, false, ◌&&◌, ◌||◌, [], ◌∷◌, length, take, drop, ltb, leb, ◌==◌,
  if◌then◌else◌,
}
use argus_ips.Packet.Frame.{byte, be16, be32}

abbrev pub max_inspect_bytes : ℕ
max_inspect_bytes = 9216

abbrev pub proto_icmp : ℕ
proto_icmp = 1

abbrev pub proto_tcp : ℕ
proto_tcp = 6

abbrev pub proto_udp : ℕ
proto_udp = 17

abbrev pub proto_icmpv6 : ℕ
proto_icmpv6 = 58

pub record Packet : Type 0 where
  pub src : IpAddr
  pub dst : IpAddr
  pub protocol : ℕ
  pub src_port : ℕ
  pub dst_port : ℕ
  pub tcp_flags : ℕ
  pub tcp_seq : ℕ
  pub tcp_window : ℕ
  pub icmp_type : ℕ
  pub icmp_code : ℕ
  pub payload : Bytes
  pub frame_len : ℕ
  pub vlan_id : ℕ
  pub is_fragment : Bool
  pub ts : ℕ

-- `Packet::reset`: every header field but `ts`.
abbrev pub reset : Packet → Packet
reset p = record {
  src = v4 (0 ∷ 0 ∷ 0 ∷ 0 ∷ []);
  dst = v4 (0 ∷ 0 ∷ 0 ∷ 0 ∷ []);
  protocol = 0;
  src_port = 0;
  dst_port = 0;
  tcp_flags = 0;
  tcp_seq = 0;
  tcp_window = 0;
  icmp_type = 0;
  icmp_code = 0;
  payload = [];
  frame_len = 0;
  vlan_id = 0;
  is_fragment = false;
  ts = p.ts;
}

-- `Packet::default`
abbrev pub default_packet : Packet
default_packet = record {
  src = v4 (0 ∷ 0 ∷ 0 ∷ 0 ∷ []);
  dst = v4 (0 ∷ 0 ∷ 0 ∷ 0 ∷ []);
  protocol = 0;
  src_port = 0;
  dst_port = 0;
  tcp_flags = 0;
  tcp_seq = 0;
  tcp_window = 0;
  icmp_type = 0;
  icmp_code = 0;
  payload = [];
  frame_len = 0;
  vlan_id = 0;
  is_fragment = false;
  ts = 0;
}

-- `copy_payload`
unfoldable pub copy_payload : Packet → Bytes → Packet
copy_payload p rest = record p { payload = take (min (length rest) max_inspect_bytes) rest }

-- The TCP case of `parse_transport`.
unfoldable pub parse_tcp : Packet → Bytes → Packet
parse_tcp p t =
    let p' = record p {
      src_port = be16 t 0;
      dst_port = be16 t 2;
      tcp_seq = be32 t 4;
      tcp_flags = byte t 13;
      tcp_window = be16 t 14;
    } in
    let data_offset = byte t 12 / 16 * 4 in
    if ltb (length t) 20
    then p
    else if leb 20 data_offset && ltb data_offset (length t)
    then copy_payload p' (drop data_offset t)
    else p'

-- The UDP case.
unfoldable pub parse_udp : Packet → Bytes → Packet
parse_udp p t =
    let p' = record p { src_port = be16 t 0; dst_port = be16 t 2 } in
    if ltb (length t) 8 then p else if ltb 8 (length t) then copy_payload p' (drop 8 t) else p'

-- The ICMP case, of both versions.
unfoldable pub parse_icmp : Packet → Bytes → Packet
parse_icmp p t =
    let p' =
      if leb 2 (length t) then record p { icmp_type = byte t 0; icmp_code = byte t 1 } else p in
    if ltb 8 (length t) then copy_payload p' (drop 8 t) else p'

-- `parse_transport`
unfoldable pub parse_transport : ℕ → Bytes → Packet → Packet
unfolding parse_tcp parse_udp parse_icmp copy_payload
parse_transport protocol t p =
    if protocol == proto_tcp
    then parse_tcp p t
    else if protocol == proto_udp
    then parse_udp p t
    else if protocol == proto_icmp || protocol == proto_icmpv6
    then parse_icmp p t
    else p
