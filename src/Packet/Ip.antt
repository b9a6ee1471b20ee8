-- ===== src/Packet/Ip.antt =====
-- The IP layer of src/packet.rs: headers, extension headers and fragments.
pub mod Chain
pub mod Fragments
use argus_ips.Address.{Bytes, IpAddr, v4, v6}
use argus_ips.Base.{
  drop, ℕ, zero, suc, ◌+◌, ◌-◌, ◌*◌, ◌/◌, ◌%◌, ◌≤◌, Bool, true, false, not, ◌&&◌, ◌||◌, Option,
  none, some, length, slice, ltb, leb, ◌==◌, if◌then◌else◌,
}
use argus_ips.Packet.Frame.{
  ethernet_payload, ethernet_vlan_id, byte, be16, be32, ether_type_ipv4, ether_type_ipv6,
}
use argus_ips.Packet.Ip.Chain.{
  opaque, transport, chain, walk_v6, find_fragment, piece_offset, piece_more,
}
use argus_ips.Packet.Transport.{Packet, reset, parse_transport}

-- The header length of an IPv4 datagram, after the checks that every reader of one makes.
unfoldable pub ipv4_ihl : Bytes → Option ℕ
ipv4_ihl ip =
    let ihl = byte ip 0 % 16 * 4 in
    if ltb (length ip) 20 || not (byte ip 0 / 16 == 4)
    then none
    else if ltb ihl 20 || ltb (length ip) ihl
    then none
    else some ihl

-- The declared length where it is believable, else what was captured.
unfoldable pub ipv4_total_len : Bytes → ℕ → ℕ
ipv4_total_len ip ihl =
    let total = be16 ip 2 in if ltb (length ip) total || ltb total ihl then length ip else total

abbrev pub frag_offset : Bytes → ℕ
frag_offset ip = be16 ip 6 % 0x2000 * 8

abbrev pub more_fragments : Bytes → Bool
more_fragments ip = not (be16 ip 6 / 0x2000 % 2 == 0)

-- What the caller sees: whether it parsed, and the packet that `out` now is.
-- `parse_ipv4_packet`
unfoldable pub parse_ipv4_packet : Bytes → Packet → Bool × Packet
parse_ipv4_packet ip out = elim (ipv4_ihl ip) [
  | none ↦ (false, out)
  | some ihl ↦
      let p = record (reset out) {
        src = v4 (slice ip 12 16);
        dst = v4 (slice ip 16 20);
        protocol = byte ip 9;
        frame_len = length ip;
        is_fragment = more_fragments ip || ltb 0 (frag_offset ip);
      } in
      if p.is_fragment
      then (true, p)
      else (true, parse_transport p.protocol (slice ip ihl (ipv4_total_len ip ihl)) p)
]

pub record Ipv4Fragment : Type 0 where
  pub id : ℕ
  pub offset : ℕ
  pub more : Bool
  pub protocol : ℕ
  pub header : Bytes
  pub payload : Bytes

-- `ipv4_fragment`
unfoldable pub ipv4_fragment : Bytes → Option Ipv4Fragment
ipv4_fragment ip = elim (ipv4_ihl ip) [
  | none ↦ none
  | some ihl ↦
      if not (more_fragments ip) && frag_offset ip == 0
      then none
      else some (record {
        id = be16 ip 4;
        offset = frag_offset ip;
        more = more_fragments ip;
        protocol = byte ip 9;
        header = slice ip 0 ihl;
        payload = slice ip ihl (ipv4_total_len ip ihl);
      })
]

-- The end of an IPv6 datagram, by its header where that is believable.
abbrev pub ipv6_end : Bytes → ℕ
ipv6_end ip = let end = 40 + be16 ip 4 in if ltb (length ip) end then length ip else end

-- `parse_ipv6_packet`
unfoldable pub parse_ipv6_packet : Bytes → Packet → Bool × Packet
parse_ipv6_packet ip out =
    let p = record (reset out) {
      src = v6 (slice ip 8 24);
      dst = v6 (slice ip 24 40);
      frame_len = length ip;
    } in
    let end = ipv6_end ip in
    if ltb (length ip) 40
    then (false, out)
    else if not (byte ip 0 / 16 == 6)
    then (false, out)
    else elim (walk_v6 ip end) [
      | opaque frag ↦ (true, record p { is_fragment = frag })
      | transport next pos frag ↦
          let p' = record p { protocol = next; is_fragment = frag } in
          (true, if leb pos end && not frag then parse_transport next (slice ip pos end) p' else p')
    ]

pub record Ipv6Fragment : Type 0 where
  pub id : ℕ
  pub offset : ℕ
  pub more : Bool
  pub next_header : ℕ
  pub unfragmentable : ℕ
  pub payload : Bytes

-- `ipv6_fragment`
unfoldable pub ipv6_fragment : Bytes → Option Ipv6Fragment
ipv6_fragment ip =
    if ltb (length ip) 40 || not (byte ip 0 / 16 == 6)
    then none
    else elim (find_fragment 9 ip (ipv6_end ip) (byte ip 6) 40) [
      | none ↦ none
      | some pos ↦ some (record {
        id = be32 ip (pos + 4);
        offset = piece_offset ip pos;
        more = piece_more ip pos;
        next_header = byte ip pos;
        unfragmentable = pos;
        payload = slice ip (pos + 8) (ipv6_end ip);
      })
    ]

-- `parse_ip_by_ethertype`
unfoldable pub parse_ip_by_ethertype : ℕ → Bytes → Packet → Bool × Packet
parse_ip_by_ethertype ether_type ip out =
    if ether_type == ether_type_ipv4
    then parse_ipv4_packet ip out
    else if ether_type == ether_type_ipv6
    then parse_ipv6_packet ip out
    else (false, out)

-- `parse_ethernet_frame`
unfoldable pub parse_ethernet_frame : Bytes → Packet → Bool × Packet
parse_ethernet_frame raw out =
    if ltb (length raw) 14 then (false, out) else elim (ethernet_payload raw) [
      | none ↦ (false, out)
      | some e ↦
          let parsed : Bool × Packet = parse_ip_by_ethertype e.ether_type (drop e.offset raw) out in
          if parsed.0
          then (true, record parsed.1 { vlan_id = ethernet_vlan_id raw; frame_len = length raw })
          else parsed
    ]
