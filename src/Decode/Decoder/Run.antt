-- ===== src/Decode/Decoder/Run.antt =====
-- A capture through `Decoder::decode`, frame by frame.
use mathlib.Core.Path.{subst}
use argus_ips.Address.{Bytes}
use argus_ips.Base.{
  max, ℕ, ◌+◌, ◌≤◌, min, Bool, true, false, not, ◌&&◌, ◌||◌, List, [], ◌∷◌, ◌≡◌, refl, ◌∙◌, length,
  drop, length-take, leb, ◌==◌, arith, Bool-cases, Option-cases, inl, inr,
}
use argus_ips.Decode.Decoder.{
  Decoded, packet, buffered, skipped, Decoder, new, Frame, offered, complete, seen, count_tags,
  decode_datagram, decode_ip, decode_inner, decode_swept, decode,
}
use argus_ips.Decode.Decoder.Counts.{packets, skips, offered_lem, decode-Counted}
use argus_ips.Decode.Fragments.{
  DefragLimits, FragKey, Partial, Defragmenter, Fragment, entry_or, absorb, completed, Offered,
  conclude, is_oversize, is_full, is_exhausted, sweep, offer, frag_key_eq_instance,
}
use argus_ips.Decode.Fragments.Table.{offer-IsValid, sweep-IsValid}
use argus_ips.Decode.Link.{LinkType, is_supported, link_payload}
use argus_ips.Decode.Stats.{DecodeStats, undecoded}
use argus_ips.Decode.Tunnel.{Layer, decapsulate, max_tunnel_depth}
use argus_ips.HashMap.{get}
use argus_ips.Packet.Frame.{ether_type_ipv4, ether_type_ipv6, Inner}
use argus_ips.Packet.Ip.{parse_ip_by_ethertype}
use argus_ips.Packet.Transport.{Packet}

-- A valid table, with the limits it was made with.
abbrev pub TableOf : DefragLimits → Defragmenter → Type 0
TableOf l d = argus_ips.Decode.Fragments.Table.IsValid d × (d.limits ≡ l)

-- What is said of a decoder between two frames: its table is valid, its limits and its cap are
-- the given ones.
abbrev Runs : DefragLimits → ℕ → Decoder → Type 0
Runs l bound d = TableOf l d.defrag × (d.payload_cap ≡ bound)

conclude-limits :
    (d : Defragmenter) (k : FragKey) (p : Partial) (s : DecodeStats)
    → (conclude d k p s).state.limits ≡ d.limits
unfolding conclude
conclude-limits d k p s = elim (Option-cases (completed d.limits.policy p)) [
  | inl e ↦ rw (e, conclude) refl
  | inr (payload, e) ↦ rw (e, conclude) refl
]

offer-limits :
    (d : Defragmenter) (k : FragKey) (f : Fragment) (now : ℕ) (s : DecodeStats)
    → (offer d k f now s).state.limits ≡ d.limits
unfolding offer
offer-limits d k f now s =
    let p = entry_or (get k d.table) now in
    elim (Bool-cases (is_oversize d.limits f || is_full d k)) [
      | inl refused ↦ rw refused refl
      | inr room ↦ elim (Bool-cases (is_exhausted d.limits p f)) [
        | inl e ↦ rw (room, e) refl
        | inr e ↦ rw (room, e) (conclude-limits d k (absorb p f) s)
      ]
    ]

sweep-limits : (d : Defragmenter) (now : ℕ) (s : DecodeStats) → (sweep d now s).0.limits ≡ d.limits
unfolding sweep
sweep-limits d now s = elim (Bool-cases (leb now d.last_swept)) [
  | inl h ↦ rw h refl
  | inr h ↦ rw h refl
]

-- The packet of a frame that became one shows at most `bound` bytes.
abbrev Within : ℕ → Decoded → ℕ → Type 0
Within bound packet shown = shown ≤ bound
Within bound _ shown = Unit

abbrev Capped : ℕ → Frame → Type 0
Capped bound f = Within bound f.outcome (length f.out.payload)

abbrev Good : DefragLimits → ℕ → Frame → Type 0
Good l bound f = Runs l bound f.decoder × Capped bound f

complete-le :
    (d : Decoder) (raw : Bytes) (ts : ℕ) (r : Bool) (p : Packet)
    → length (complete d raw ts r p).payload ≤ d.payload_cap
unfolding complete
complete-le d raw ts r p = ground (arith, length-take d.payload_cap p.payload)

module _ (l : DefragLimits) (bound : ℕ) (raw : Bytes) (ts now : ℕ) (out : Packet) where
  decode_datagram-Good :
      (d : Decoder) (r : Bool) (inner : Layer)
      → Runs l bound d
      → Good l bound (decode_datagram d raw ts r inner out)
  unfolding decode_datagram
  decode_datagram-Good d r inner v =
      let i : Layer × DecodeStats = decapsulate max_tunnel_depth inner d.stats in
      let parsed : Bool × Packet = parse_ip_by_ethertype i.0.0 i.0.1 out in
      elim (Bool-cases parsed.0) [
        | inl h ↦ rw h (
          v,
          subst (λ n. length (complete d raw ts r parsed.1).payload ≤ n) v.1
              (complete-le d raw ts r parsed.1),
        )
        | inr h ↦ rw h (v, tt)
      ]

  decode_ip-Good :
      (d : Decoder) (et : ℕ) (ip : Bytes)
      → Runs l bound d
      → Good l bound (decode_ip d raw ts now et ip out)
  unfolding decode_ip
  decode_ip-Good d et ip v = elim (Option-cases (offered d.defrag et ip now d.stats)) [
    | inl e ↦ rw (e, decode_ip) (decode_datagram-Good d false (et, ip) v)
    | inr (o, e) ↦
        let kept : TableOf l o.state =
          offered_lem (λ x. TableOf l x.state) d.defrag et ip now d.stats
            (λ k f. (
              offer-IsValid d.defrag k f now (seen d.stats) v.0.0,
              offer-limits d.defrag k f now (seen d.stats) ∙ v.0.1,
            ))
            e in
        let d' = record d { defrag = o.state; stats = o.stats } in
        elim (Option-cases o.datagram) [
          | inl e' ↦ rw (e, decode_ip, e') ((kept, v.1), tt)
          | inr (datagram, e') ↦
              rw (e, decode_ip, e') (decode_datagram-Good d' true (et, datagram) (kept, v.1))
        ]
  ]

  decode_inner-Good :
      (d : Decoder) (e : Inner) → Runs l bound d → Good l bound (decode_inner d raw ts now e out)
  unfolding decode_inner
  decode_inner-Good d e v =
      let s = count_tags e.tags d.stats in
      elim (Bool-cases
        (not (e.ether_type == ether_type_ipv4) && not (e.ether_type == ether_type_ipv6))) [
          | inl h ↦ rw h (v, tt)
          | inr h ↦
              let ip = drop (min e.offset (length raw)) raw in
              rw h (decode_ip-Good (record d { stats = s }) e.ether_type ip v)
        ]

  decode_swept-Good : (d : Decoder) → Runs l bound d → Good l bound (decode_swept d raw ts now out)
  unfolding decode_swept
  decode_swept-Good d v = elim (Bool-cases (is_supported d.link)) [
    | inr h ↦ rw h (v, tt)
    | inl h ↦ elim (Option-cases (link_payload d.link raw)) [
      | inl e ↦ rw (h, e, decode_swept) (v, tt)
      | inr (i, e) ↦ rw (h, e, decode_swept) (decode_inner-Good d i v)
    ]
  ]

  decode-Good : (d : Decoder) → Runs l bound d → Good l bound (decode d raw ts now out)
  unfolding decode
  decode-Good d v =
      let swept : Defragmenter × DecodeStats = sweep d.defrag now d.stats in
      decode_swept-Good (record d { defrag = swept.0; stats = swept.1 })
        (
          ((sweep-IsValid d.defrag now d.stats v.0.0).0, sweep-limits d.defrag now d.stats ∙ v.0.1),
          v.1,
        )

-- A captured frame, with its time as the packet's and in seconds.
pub record Captured : Type 0 where
  pub raw : Bytes
  pub ts : ℕ
  pub now_sec : ℕ

-- A capture through one decoder; the packet is the same object for every frame.
unfoldable pub decode_all : Decoder → Packet → List Captured → Decoder × List Frame
decode_all d out [] = (d, [])
decode_all d out (c ∷ cs) =
    let f = decode d c.raw c.ts c.now_sec out in
    let rest = decode_all f.decoder f.out cs in (rest.0, f ∷ rest.1)

-- How many of the frames were buffered.
abbrev waits : Decoded → ℕ
waits buffered = 1
waits _ = 0

abbrev pub waiting : List Frame → ℕ
waiting [] = 0
waiting (f ∷ fs) = waits f.outcome + waiting fs

-- Each packet of the list shows at most `bound` bytes.
abbrev pub AllCapped : ℕ → List Frame → Type 0
AllCapped bound [] = Unit
AllCapped bound (f ∷ fs) = Capped bound f × AllCapped bound fs

one_outcome : (o : Decoded) → packets o + skips o + waits o ≡ 1
one_outcome packet = refl
one_outcome buffered = refl
one_outcome skipped = refl

decode_all-counts :
    (d : Decoder) (out : Packet) (cs : List Captured)
    → let r = decode_all d out cs in
      r.0.stats.decoded + undecoded r.0.stats + waiting r.1
      ≡ d.stats.decoded + undecoded d.stats + length cs
unfolding decode_all
decode_all-counts d out [] = omega arith
decode_all-counts d out (c ∷ cs) =
    let f = decode d c.raw c.ts c.now_sec out in
    omega (
      arith,
      decode_all-counts f.decoder f.out cs,
      decode-Counted d c.raw c.ts c.now_sec out,
      one_outcome f.outcome,
    )

decode_all-Good :
    (l : DefragLimits) (bound : ℕ) (d : Decoder) (out : Packet) (cs : List Captured)
    → Runs l bound d
    → let r = decode_all d out cs in Runs l bound r.0 × AllCapped bound r.1
unfolding decode_all
decode_all-Good l bound d out [] v = (v, tt)
decode_all-Good l bound d out (c ∷ cs) v =
    let f = decode d c.raw c.ts c.now_sec out in
    let g = decode-Good l bound c.raw c.ts c.now_sec out d v in
    let r = decode_all-Good l bound f.decoder f.out cs g.0 in (r.0, (g.1, r.1))

-- The frames of a capture through a fresh decoder are all accounted for: those decoded, those
-- counted as not decoded and those buffered are together as many as there were frames.
pub decode_all_accounts :
    (link : LinkType) (bound : ℕ) (l : DefragLimits) (out : Packet) (cs : List Captured)
    → let r = decode_all (new link bound l) out cs in
      r.0.stats.decoded + undecoded r.0.stats + waiting r.1 ≡ length cs
unfolding new undecoded
decode_all_accounts link bound l out cs = omega (arith, decode_all-counts (new link bound l) out cs)

-- However the frames of a capture are chosen, the table of a fresh decoder stays valid for its
-- limits (datagrams, and fragments and bytes of each), the decoder's cap is the configured one put
-- into 1 to 9216, and every packet shows at most that many bytes.
pub decode_all_bounds :
    (link : LinkType) (bound : ℕ) (l : DefragLimits) (out : Packet) (cs : List Captured)
    → let d = new link bound l in
      let r = decode_all d out cs in
      TableOf l r.0.defrag
      × (d.payload_cap ≡ min (max bound 1) 9216)
      × AllCapped (min (max bound 1) 9216) r.1
unfolding new
decode_all_bounds link bound l out cs =
    let d = new link bound l in
    let start : Runs l d.payload_cap d =
      ((record { bounded = omega arith; distinct = tt; fit = tt }, refl), refl) in
    let g = decode_all-Good l d.payload_cap d out cs start in
    let e : d.payload_cap ≡ min (max bound 1) 9216 = ground arith in
    (g.0.0, e, subst (λ c. AllCapped c (decode_all d out cs).1) e g.1)
