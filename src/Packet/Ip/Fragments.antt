-- ===== src/Packet/Ip/Fragments.antt =====
-- What the parser makes of a fragment.
use argus_ips.Address.{Bytes}
use argus_ips.Base.{
  ◌/◌, Bool, true, false, not, ◌&&◌, ◌||◌, Option, none, some, ◌≡◌, refl, length, ltb, ◌==◌, arith,
  Option-cases, inl, inr,
}
use argus_ips.Packet.Frame.{byte}
use argus_ips.Packet.Ip.Chain.{
  walk_v6, find_fragment, find_fragment-chain, Walk, opaque, transport, frag_of,
}
use argus_ips.Packet.Ip.{
  ipv4_ihl, more_fragments, frag_offset, ipv4_fragment, parse_ipv4_packet, ipv6_fragment, ipv6_end,
  parse_ipv6_packet,
}
use argus_ips.Packet.Transport.{Packet}

abbrev pub is_some {ℓ} : {A : Type ℓ} → Option A → Bool
is_some none = false
is_some (some a) = true

-- No field of a TCP, UDP or ICMP header is invented for a fragment.
abbrev pub HasNoTransport : Packet → Type 0
HasNoTransport p =
    (p.is_fragment ≡ true)
    × (p.src_port ≡ 0)
    × (p.dst_port ≡ 0)
    × (p.tcp_flags ≡ 0)
    × (p.tcp_seq ≡ 0)
    × (p.tcp_window ≡ 0)
    × (p.icmp_type ≡ 0)
    × (p.icmp_code ≡ 0)
    × (length p.payload ≡ 0)

ipv4_fragment-is_piece :
    (ip : Bytes)
    → is_some (ipv4_fragment ip) ≡ true
    → is_some (ipv4_ihl ip) && (more_fragments ip || ltb 0 (frag_offset ip)) ≡ true
unfolding ipv4_fragment
ipv4_fragment-is_piece ip h = ground arith

parse_ipv4_piece :
    (ip : Bytes) (out : Packet)
    → is_some (ipv4_ihl ip) && (more_fragments ip || ltb 0 (frag_offset ip)) ≡ true
    → ((parse_ipv4_packet ip out).0 ≡ true) × HasNoTransport (parse_ipv4_packet ip out).1
unfolding parse_ipv4_packet
parse_ipv4_piece ip out h = ground arith

-- An IPv4 datagram that `ipv4_fragment` takes for a fragment is accepted by the parser and marked
-- as one, with none of its bytes read as a transport header.
pub ipv4_fragment-HasNoTransport :
    (ip : Bytes) (out : Packet)
    → is_some (ipv4_fragment ip) ≡ true
    → ((parse_ipv4_packet ip out).0 ≡ true) × HasNoTransport (parse_ipv4_packet ip out).1
ipv4_fragment-HasNoTransport ip out h = parse_ipv4_piece ip out (ipv4_fragment-is_piece ip h)

abbrev is_v6 : Bytes → Bool
is_v6 ip = not (ltb (length ip) 40) && byte ip 0 / 16 == 6

ipv6_fragment-walk :
    (ip : Bytes)
    → is_some (ipv6_fragment ip) ≡ true
    → (is_v6 ip ≡ true) × (frag_of (walk_v6 ip (ipv6_end ip)) ≡ true)
unfolding ipv6_fragment walk_v6
ipv6_fragment-walk ip h = elim (Option-cases (find_fragment 9 ip (ipv6_end ip) (byte ip 6) 40)) [
  | inl e ↦ ground arith
  | inr (at, e) ↦
      let seen = find_fragment-chain 9 ip (ipv6_end ip) (byte ip 6) 40 false {at = at} e in
      ground arith
]

parse_ipv6_piece :
    (ip : Bytes) (out : Packet)
    → is_v6 ip ≡ true
    → frag_of (walk_v6 ip (ipv6_end ip)) ≡ true
    → ((parse_ipv6_packet ip out).0 ≡ true) × HasNoTransport (parse_ipv6_packet ip out).1
unfolding parse_ipv6_packet
parse_ipv6_piece ip out v h = go (walk_v6 ip (ipv6_end ip)) refl
  where
    go :
        (w : Walk)
        → walk_v6 ip (ipv6_end ip) ≡ w
        → ((parse_ipv6_packet ip out).0 ≡ true) × HasNoTransport (parse_ipv6_packet ip out).1
    go (opaque f) e = ground arith
    go (transport n p f) e = ground arith

-- Where `ipv6_fragment` finds a fragment header, whatever extension headers stand before it, the
-- parser accepts the IPv6 datagram, marks the packet as a fragment and reads none of its bytes as
-- a transport header.
pub ipv6_fragment-HasNoTransport :
    (ip : Bytes) (out : Packet)
    → is_some (ipv6_fragment ip) ≡ true
    → ((parse_ipv6_packet ip out).0 ≡ true) × HasNoTransport (parse_ipv6_packet ip out).1
ipv6_fragment-HasNoTransport ip out h =
    let w = ipv6_fragment-walk ip h in parse_ipv6_piece ip out w.0 w.1
