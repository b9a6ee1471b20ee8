-- ===== src/Packet/Frame/Tags.antt =====
-- Where the payload of an Ethernet frame begins.
use mathlib.Core.Path.{subst}
use argus_ips.Address.{Bytes}
use argus_ips.Base.{
  ℕ, zero, suc, ◌+◌, ◌*◌, ◌≤◌, inl, inr, Bool-cases, not, none, some, ◌≡◌, length, ltb, arith,
}
use argus_ips.Packet.Frame.{be16, is_tag, Inner, strip_tags, ethernet_payload}

-- The payload begins inside the frame, behind 14 bytes and 4 for each tag.
pub record IsInside (most : ℕ) (raw : Bytes) (e : Inner) : Type 0 where
  pub inside : e.offset ≤ length raw
  pub few : e.tags ≤ most
  pub behind : e.offset ≡ 14 + 4 * e.tags

start-IsInside :
    (most : ℕ) (raw : Bytes)
    → 14 ≤ length raw
    → IsInside most raw (record { ether_type = be16 raw 12; offset = 14; tags = 0 })
start-IsInside most raw h = record { inside = h; few = omega arith; behind = omega arith }

strip_tags-IsInside :
    (left most : ℕ) (raw : Bytes) (e : Inner) {r : Inner}
    → IsInside most raw e
    → e.tags + left ≤ most
    → strip_tags left raw e ≡ some r
    → IsInside most raw r
unfolding strip_tags
strip_tags-IsInside zero most raw e {r} v m h =
    let same : e ≡ r = cc in subst (λ (x : Inner). IsInside most raw x) same v
strip_tags-IsInside (suc left) most raw e {r} v m h =
    elim (Bool-cases (not (is_tag e.ether_type))) [
      | inl plain ↦
          let h' : some e ≡ some r = rw plain at h in
          let same : e ≡ r = cc in subst (λ (x : Inner). IsInside most raw x) same v
      | inr tagged ↦ elim (Bool-cases (ltb (length raw) (e.offset + 4))) [
        | inl short ↦ let h' : none ≡ some r = rw (tagged, short) at h in absurd (cc)
        | inr enough ↦
            let e' : Inner = record {
              ether_type = be16 raw (e.offset + 2);
              offset = e.offset + 4;
              tags = e.tags + 1;
            } in
            let h' : strip_tags left raw e' ≡ some r = rw (tagged, enough) at h in
            strip_tags-IsInside left most raw e'
              (record {
                inside = ground arith;
                few = omega (arith, m);
                behind = omega (arith, v.behind);
              })
              (omega (arith, m)) h'
      ]
    ]

-- The offset that `ethernet_payload` gives lies inside the frame, so its caller may cut there; at
-- most three tags are stripped, and the offset is that of the header with 4 bytes for each tag.
pub ethernet_payload-IsInside :
    (raw : Bytes) {e : Inner} → ethernet_payload raw ≡ some e → IsInside 3 raw e
unfolding ethernet_payload
ethernet_payload-IsInside raw {e} h = elim (Bool-cases (ltb (length raw) 14)) [
  | inl short ↦ let h' : none ≡ some e = rw short at h in absurd (cc)
  | inr enough ↦
      let first : Inner = record { ether_type = be16 raw 12; offset = 14; tags = 0 } in
      let h' : strip_tags 3 raw first ≡ some e = rw enough at h in
      strip_tags-IsInside 3 3 raw first (start-IsInside 3 raw (ground arith)) (omega arith) h'
]
