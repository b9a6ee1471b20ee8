-- ===== src/Packet/Tests.antt =====
-- src/packet.rs at concrete inputs.
use argus_ips.Address.{Bytes}
use argus_ips.Base.{some, true, [], ◌∷◌, ◌≡◌, refl}
use argus_ips.Packet.Frame.Tags.{IsInside, ethernet_payload-IsInside}
use argus_ips.Packet.Frame.{ethernet_payload}
use argus_ips.Packet.Ip.Fragments.{
  HasNoTransport, ipv4_fragment-HasNoTransport, ipv6_fragment-HasNoTransport,
}
use argus_ips.Packet.Ip.{parse_ipv4_packet, ipv4_fragment, parse_ipv6_packet, ipv6_fragment}
use argus_ips.Packet.Transport.{default_packet}

-- The second fragment of a datagram, at offset 8.
abbrev ipv4_piece : Bytes
ipv4_piece =
    69 ∷ 0 ∷ 0 ∷ 22 ∷ 0 ∷ 1 ∷ 0 ∷ 1 ∷ 64 ∷ 6 ∷ 0 ∷ 0 ∷ 10 ∷ 0 ∷ 0 ∷ 1 ∷ 10 ∷ 0 ∷ 0 ∷ 2 ∷ 1 ∷ 2 ∷ []

ipv4_piece_is_fragment : argus_ips.Packet.Ip.Fragments.is_some (ipv4_fragment ipv4_piece) ≡ true
unfolding ipv4_fragment argus_ips.Packet.Ip.ipv4_ihl argus_ips.Packet.Ip.ipv4_total_len
ipv4_piece_is_fragment = refl

ipv4_fragment-HasNoTransport_example :
    ((parse_ipv4_packet ipv4_piece default_packet).0 ≡ true)
    × HasNoTransport (parse_ipv4_packet ipv4_piece default_packet).1
ipv4_fragment-HasNoTransport_example =
    ipv4_fragment-HasNoTransport ipv4_piece default_packet ipv4_piece_is_fragment

-- An IPv6 datagram whose first extension header is a fragment header with more to come.
abbrev ipv6_piece : Bytes
ipv6_piece =
    96 ∷ 0 ∷ 0 ∷ 0 ∷ 0 ∷ 10 ∷ 44 ∷ 64 ∷ 0 ∷ 0 ∷ 0 ∷ 0 ∷ 0 ∷ 0 ∷ 0 ∷ 0 ∷ 0 ∷ 0 ∷ 0 ∷ 0 ∷ 0 ∷ 0 ∷ 0
    ∷ 1 ∷ 0 ∷ 0 ∷ 0 ∷ 0 ∷ 0 ∷ 0 ∷ 0 ∷ 0 ∷ 0 ∷ 0 ∷ 0 ∷ 0 ∷ 0 ∷ 0 ∷ 0 ∷ 2 ∷ 6 ∷ 0 ∷ 0 ∷ 1 ∷ 0 ∷ 0 ∷ 0
    ∷ 9 ∷ 1 ∷ 2 ∷ []

ipv6_piece_is_fragment : argus_ips.Packet.Ip.Fragments.is_some (ipv6_fragment ipv6_piece) ≡ true
unfolding ipv6_fragment argus_ips.Packet.Ip.Chain.find_fragment
ipv6_piece_is_fragment = refl

ipv6_fragment-HasNoTransport_example :
    ((parse_ipv6_packet ipv6_piece default_packet).0 ≡ true)
    × HasNoTransport (parse_ipv6_packet ipv6_piece default_packet).1
ipv6_fragment-HasNoTransport_example =
    ipv6_fragment-HasNoTransport ipv6_piece default_packet ipv6_piece_is_fragment

-- An ARP frame behind one VLAN tag.
abbrev tagged_frame : Bytes
tagged_frame =
    1 ∷ 2 ∷ 3 ∷ 4 ∷ 5 ∷ 6 ∷ 7 ∷ 8 ∷ 9 ∷ 10 ∷ 11 ∷ 12 ∷ 0x81 ∷ 0 ∷ 0 ∷ 5 ∷ 8 ∷ 6 ∷ 1 ∷ 1 ∷ []

tagged_frame-payload :
    ethernet_payload tagged_frame ≡ some (record { ether_type = 0x0806; offset = 18; tags = 1 })
unfolding ethernet_payload argus_ips.Packet.Frame.strip_tags
tagged_frame-payload = refl

ethernet_payload-IsInside_example :
    IsInside 3 tagged_frame (record { ether_type = 0x0806; offset = 18; tags = 1 })
ethernet_payload-IsInside_example = ethernet_payload-IsInside tagged_frame tagged_frame-payload
