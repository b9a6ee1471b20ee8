-- ===== src/Decode/Decoder/Counts.antt =====
-- What every call of `Decoder::decode` keeps: the counters, the cap and the table's bounds.
use mathlib.Core.Path.{subst}
use argus_ips.Address.{Bytes}
use argus_ips.Base.{
  ℕ, zero, suc, ◌+◌, min, Bool, true, false, not, ◌&&◌, ◌||◌, none, some, ◌≡◌, refl, length, drop,
  ◌==◌, arith, Bool-cases, Option-cases, inl, inr,
}
use argus_ips.Decode.Decoder.{
  Decoded, packet, skipped, Decoder, offer_ipv4, offer_ipv6, offered, seen, count_tags,
  decode_datagram, decode_ip, decode_inner, decode_swept, decode,
}
use argus_ips.Decode.Fragments.{
  FragKey, Partial, Defragmenter, Fragment, entry_or, absorb, completed, Offered, conclude,
  is_oversize, is_full, is_exhausted, sweep, offer, frag_key_eq_instance,
}
use argus_ips.Decode.Link.{is_supported, link_payload}
use argus_ips.Decode.Stats.{DecodeStats, undecoded}
use argus_ips.Decode.Tunnel.{
  Layer, ip_payload, next_layer, count_esp, count_tunnel, decapsulate, max_tunnel_depth,
}
use argus_ips.HashMap.{get}
use argus_ips.Packet.Frame.{ether_type_ipv4, ether_type_ipv6, Inner}
use argus_ips.Packet.Ip.{ipv4_fragment, ipv6_fragment, parse_ip_by_ethertype}
use argus_ips.Packet.Transport.{Packet}

-- The counters that close a frame are the same in both.
abbrev Untouched : DecodeStats → DecodeStats → Type 0
Untouched s t = (t.decoded ≡ s.decoded) × (undecoded t ≡ undecoded s)

sweep-Untouched : (d : Defragmenter) (now : ℕ) (s : DecodeStats) → Untouched s (sweep d now s).1
unfolding sweep undecoded
sweep-Untouched d now s = ground arith

conclude-Untouched :
    (d : Defragmenter) (k : FragKey) (p : Partial) (s : DecodeStats)
    → Untouched s (conclude d k p s).stats
unfolding conclude undecoded
conclude-Untouched d k p s = elim (Option-cases (completed d.limits.policy p)) [
  | inl e ↦ rw (e, conclude) (refl, refl)
  | inr (payload, e) ↦ rw (e, conclude) (refl, refl)
]

offer-Untouched :
    (d : Defragmenter) (k : FragKey) (f : Fragment) (now : ℕ) (s : DecodeStats)
    → Untouched s (offer d k f now s).stats
unfolding offer undecoded
offer-Untouched d k f now s =
    let p = entry_or (get k d.table) now in
    elim (Bool-cases (is_oversize d.limits f || is_full d k)) [
      | inl refused ↦ rw refused (refl, refl)
      | inr room ↦ elim (Bool-cases (is_exhausted d.limits p f)) [
        | inl e ↦ rw (room, e) (refl, refl)
        | inr e ↦ rw (room, e) (conclude-Untouched d k (absorb p f) s)
      ]
    ]

count_esp-Untouched : (proto : ℕ) (s : DecodeStats) → Untouched s (count_esp proto s)
unfolding undecoded
count_esp-Untouched proto s = ground arith

decapsulate-Untouched :
    (depth : ℕ) (l : Layer) (s : DecodeStats) → Untouched s (decapsulate depth l s).1
unfolding decapsulate undecoded
decapsulate-Untouched zero l s = (refl, refl)
decapsulate-Untouched (suc depth) l s = elim (Option-cases (ip_payload l.0 l.1)) [
  | inl e ↦ rw (e, decapsulate) (refl, refl)
  | inr (inside, e) ↦ elim (Option-cases (next_layer inside)) [
    | inl stop ↦ rw (e, stop, decapsulate) (count_esp-Untouched inside.0 s)
    | inr (l', go) ↦ rw (e, go, decapsulate) (decapsulate-Untouched depth l' (count_tunnel s))
  ]
]

-- The outcomes as the counters count them.
abbrev pub packets : Decoded → ℕ
packets packet = 1
packets _ = 0

abbrev pub skips : Decoded → ℕ
skips skipped = 1
skips _ = 0

-- What a frame does to the counters, by its outcome.
abbrev pub Counted : DecodeStats → Decoded → DecodeStats → Type 0
Counted s o t = (t.decoded ≡ s.decoded + packets o) × (undecoded t ≡ undecoded s + skips o)

decode_datagram-Counted :
    (d : Decoder) (raw : Bytes) (ts : ℕ) (r : Bool) (l : Layer) (out : Packet)
    → let f = decode_datagram d raw ts r l out in Counted d.stats f.outcome f.decoder.stats
unfolding decode_datagram undecoded
decode_datagram-Counted d raw ts r l out =
    let inner : Layer × DecodeStats = decapsulate max_tunnel_depth l d.stats in
    let same = decapsulate-Untouched max_tunnel_depth l d.stats in
    elim (Bool-cases (parse_ip_by_ethertype inner.0.0 inner.0.1 out).0) [
      | inl h ↦ rw h (omega (arith, same), omega (arith, same))
      | inr h ↦ rw h (omega (arith, same), omega (arith, same))
    ]

-- What holds of every offer holds of the one that `decode` makes.
pub offered_lem :
    (P : Offered → Type 0) (d : Defragmenter) (et : ℕ) (ip : Bytes) (now : ℕ) (s : DecodeStats)
    → ((k : FragKey) (f : Fragment) → P (offer d k f now (seen s)))
    → {o : Offered} → offered d et ip now s ≡ some o
    → P o
unfolding offered offer_ipv4 offer_ipv6
offered_lem P d et ip now s every {o} h = elim (Bool-cases (et == ether_type_ipv4)) [
  | inl v4 ↦ elim (Option-cases (ipv4_fragment ip)) [
    | inl e ↦ let g : none ≡ some o = rw (v4, e, offered) at h in absurd (cc)
    | inr (f, e) ↦
        let g : some (offer_ipv4 d ip f now s) ≡ some o = rw (v4, e, offered) at h in
        let q : offer_ipv4 d ip f now s ≡ o = cc in subst P q (every _ _)
  ]
  | inr v6 ↦ elim (Option-cases (ipv6_fragment ip)) [
    | inl e ↦ let g : none ≡ some o = rw (v6, e, offered) at h in absurd (cc)
    | inr (f, e) ↦
        let g : some (offer_ipv6 d ip f now s) ≡ some o = rw (v6, e, offered) at h in
        let q : offer_ipv6 d ip f now s ≡ o = cc in subst P q (every _ _)
  ]
]

decode_ip-Counted :
    (d : Decoder) (raw : Bytes) (ts now et : ℕ) (ip : Bytes) (out : Packet)
    → let f = decode_ip d raw ts now et ip out in Counted d.stats f.outcome f.decoder.stats
unfolding decode_ip undecoded
decode_ip-Counted d raw ts now et ip out =
    elim (Option-cases (offered d.defrag et ip now d.stats)) [
      | inl e ↦ rw (e, decode_ip) (decode_datagram-Counted d raw ts false (et, ip) out)
      | inr (o, e) ↦
          let same =
            offered_lem (λ x. Untouched d.stats x.stats) d.defrag et ip now d.stats
              (λ k f. offer-Untouched d.defrag k f now (seen d.stats)) e in
          let d' = record d { defrag = o.state; stats = o.stats } in
          elim (Option-cases o.datagram) [
            | inl e' ↦ rw (e, decode_ip, e') (omega (arith, same), omega (arith, same))
            | inr (datagram, e') ↦
                let c = decode_datagram-Counted d' raw ts true (et, datagram) out in
                rw (e, decode_ip, e') (omega (arith, same, c), omega (arith, same, c))
          ]
    ]

decode_inner-Counted :
    (d : Decoder) (raw : Bytes) (ts now : ℕ) (e : Inner) (out : Packet)
    → let f = decode_inner d raw ts now e out in Counted d.stats f.outcome f.decoder.stats
unfolding decode_inner undecoded
decode_inner-Counted d raw ts now e out =
    let s = count_tags e.tags d.stats in
    let same : Untouched d.stats s = ground arith in
    let ip = drop (min e.offset (length raw)) raw in
    let c = decode_ip-Counted (record d { stats = s }) raw ts now e.ether_type ip out in
    elim (Bool-cases
      (not (e.ether_type == ether_type_ipv4) && not (e.ether_type == ether_type_ipv6))) [
        | inl h ↦ rw h (omega (arith, same), omega (arith, same))
        | inr h ↦ rw h (omega (arith, same, c), omega (arith, same, c))
      ]

decode_swept-Counted :
    (d : Decoder) (raw : Bytes) (ts now : ℕ) (out : Packet)
    → let f = decode_swept d raw ts now out in Counted d.stats f.outcome f.decoder.stats
unfolding decode_swept undecoded
decode_swept-Counted d raw ts now out = elim (Bool-cases (is_supported d.link)) [
  | inr h ↦ rw h (omega arith, omega arith)
  | inl h ↦ elim (Option-cases (link_payload d.link raw)) [
    | inl e ↦ rw (h, e, decode_swept) (omega arith, omega arith)
    | inr (i, e) ↦ rw (h, e, decode_swept) (decode_inner-Counted d raw ts now i out)
  ]
]

-- Every frame ends in exactly one of three ways, and the counters agree with it: a packet raises
-- `decoded` by one, a skipped frame raises the sum of the four reasons by one, and a buffered
-- fragment raises neither.
pub decode-Counted :
    (d : Decoder) (raw : Bytes) (ts now : ℕ) (out : Packet)
    → let f = decode d raw ts now out in Counted d.stats f.outcome f.decoder.stats
unfolding decode undecoded
decode-Counted d raw ts now out =
    let swept : Defragmenter × DecodeStats = sweep d.defrag now d.stats in
    let same = sweep-Untouched d.defrag now d.stats in
    let c = decode_swept-Counted (record d { defrag = swept.0; stats = swept.1 }) raw ts now out in
    (omega (arith, same, c), omega (arith, same, c))
