-- ===== src/Decode/Tunnel.antt =====
-- Tunnels of src/decode.rs: `ip_payload`, `gre_header_len` and `decapsulate`.
pub mod Bounds
use argus_ips.Address.{Bytes}
use argus_ips.Base.{
  ℕ, zero, suc, ◌+◌, ◌*◌, ◌/◌, ◌%◌, Bool, true, false, not, ◌&&◌, ◌||◌, Option, none, some, ◌>>=◌,
  length, slice, drop, min, ltb, leb, ◌==◌, if◌then◌else◌,
}
use argus_ips.Decode.Stats.{DecodeStats}
use argus_ips.Packet.Frame.{byte, be16, ether_type_ipv4, ether_type_ipv6, ethernet_payload}
use argus_ips.Packet.Ip.{ipv4_ihl, ipv4_total_len}

abbrev pub proto_ipip : ℕ
proto_ipip = 4

abbrev pub proto_ipv6_in_ip : ℕ
proto_ipv6_in_ip = 41

abbrev pub proto_gre : ℕ
proto_gre = 47

abbrev pub proto_esp : ℕ
proto_esp = 50

abbrev pub proto_udp_num : ℕ
proto_udp_num = 17

abbrev pub vxlan_port : ℕ
vxlan_port = 4789

abbrev pub gre_teb : ℕ
gre_teb = 0x6558

abbrev pub max_tunnel_depth : ℕ
max_tunnel_depth = 4

-- A protocol and the bytes that it governs; also an ethertype and its datagram.
abbrev pub Layer : Type 0
Layer = ℕ × Bytes

-- The IPv6 case of `ip_payload`.
unfoldable pub ipv6_payload : Bytes → Option Layer
ipv6_payload ip =
    let declared = be16 ip 4 in
    let end = if leb (40 + declared) (length ip) then 40 + declared else length ip in
    if ltb (length ip) 40 || not (byte ip 0 / 16 == 6)
    then none
    else some (byte ip 6, slice ip 40 end)

-- `ip_payload`
unfoldable pub ip_payload : ℕ → Bytes → Option Layer
unfolding ipv6_payload
ip_payload ether_type ip =
    if ether_type == ether_type_ipv4
    then (ipv4_ihl ip >>= λ ihl. some (byte ip 9, slice ip ihl (ipv4_total_len ip ihl)))
    else if ether_type == ether_type_ipv6
    then ipv6_payload ip
    else none

-- `flags & 0x8000`, `0x2000` and `0x1000`, each of four bytes.
abbrev pub flag_len : ℕ → ℕ → ℕ
flag_len flags bit = if flags / bit % 2 == 0 then 0 else 4

-- `gre_header_len`
unfoldable pub gre_header_len : Bytes → Option ℕ
gre_header_len gre =
    let flags = be16 gre 0 in
    let len = 4 + flag_len flags 0x8000 + flag_len flags 0x2000 + flag_len flags 0x1000 in
    if ltb (length gre) 4 then none else if ltb (length gre) len then none else some len

-- The Ethernet frame that a tunnel carries.
unfoldable pub inner_frame : Bytes → Option Layer
inner_frame body =
    ethernet_payload body >>= λ e. some (e.ether_type, drop (min e.offset (length body)) body)

-- The GRE case of `decapsulate`; `none` is its `break`.
unfoldable pub gre_inner : Bytes → Option Layer
unfolding inner_frame
gre_inner payload = gre_header_len payload >>= λ hdr.
    let body = drop hdr payload in
    let declared = be16 payload 2 in
    if declared == ether_type_ipv4
    then some (ether_type_ipv4, body)
    else if declared == ether_type_ipv6
    then some (ether_type_ipv6, body)
    else if declared == gre_teb
    then inner_frame body
    else none

-- The VXLAN case.
unfoldable pub vxlan_inner : Bytes → Option Layer
unfolding inner_frame
vxlan_inner payload =
    if ltb (length payload) 16
    then none
    else if not (be16 payload 2 == vxlan_port) && not (be16 payload 0 == vxlan_port)
    then none
    else inner_frame (drop 16 payload)

-- The `match` on the protocol, ESP apart, which is counted.
unfoldable pub inner_layer : ℕ → Bytes → Option Layer
unfolding gre_inner vxlan_inner
inner_layer proto payload =
    if proto == proto_ipip
    then some (ether_type_ipv4, payload)
    else if proto == proto_ipv6_in_ip
    then some (ether_type_ipv6, payload)
    else if proto == proto_gre
    then gre_inner payload
    else if proto == proto_udp_num
    then vxlan_inner payload
    else none

abbrev pub count_esp : ℕ → DecodeStats → DecodeStats
count_esp proto stats =
    if proto == proto_esp then record stats { esp_encrypted = stats.esp_encrypted + 1 } else stats

abbrev pub count_tunnel : DecodeStats → DecodeStats
count_tunnel stats = record stats { tunnelled = stats.tunnelled + 1 }

-- Where a round of the loop leads: the layer inside, or a `break`.
unfoldable pub next_layer : Layer → Option Layer
next_layer (proto, payload) =
    inner_layer proto payload >>= λ l. if length l.1 == 0 then none else some l

-- `decapsulate`; the first argument is the number of layers that may still be followed.
unfoldable pub decapsulate : ℕ → Layer → DecodeStats → Layer × DecodeStats
decapsulate zero l stats = (l, stats)
decapsulate (suc depth) l stats = elim (ip_payload l.0 l.1) [
  | none ↦ (l, stats)
  | some inside ↦ elim (next_layer inside) [
    | none ↦ (l, count_esp inside.0 stats)
    | some l' ↦ decapsulate depth l' (count_tunnel stats)
  ]
]
