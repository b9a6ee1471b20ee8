-- ===== src/Packet/Frame.antt =====
-- The link layer of src/packet.rs: Ethernet frames with VLAN tags. A byte is a number below 256, and
-- a read at a place that the code has checked is `byte`.
pub mod Tags
use argus_ips.Address.{Bytes}
use argus_ips.Base.{
  ℕ, zero, suc, ◌+◌, ◌*◌, ◌%◌, Bool, not, ◌||◌, Option, none, some, length, get_or, ltb, ◌==◌,
  if◌then◌else◌,
}

abbrev pub byte : Bytes → ℕ → ℕ
byte raw i = get_or raw i 0

-- `u16::from_be_bytes([raw[i], raw[i + 1]])`, and so for 32 bits.
abbrev pub be16 : Bytes → ℕ → ℕ
be16 raw i = byte raw i * 256 + byte raw (i + 1)

abbrev pub be32 : Bytes → ℕ → ℕ
be32 raw i = be16 raw i * 65536 + be16 raw (i + 2)

abbrev pub ether_type_ipv4 : ℕ
ether_type_ipv4 = 0x0800

abbrev pub ether_type_ipv6 : ℕ
ether_type_ipv6 = 0x86dd

abbrev pub ether_type_vlan : ℕ
ether_type_vlan = 0x8100

abbrev pub ether_type_qinq : ℕ
ether_type_qinq = 0x88a8

abbrev pub max_vlan_tags : ℕ
max_vlan_tags = 3

-- An ethertype, the offset of the payload and the number of tags stripped.
pub record Inner : Type 0 where
  pub ether_type : ℕ
  pub offset : ℕ
  pub tags : ℕ

abbrev pub is_tag : ℕ → Bool
is_tag t = t == ether_type_vlan || t == ether_type_qinq

-- The loop of `ethernet_payload`; the first argument counts the tags that may still be stripped.
unfoldable pub strip_tags : ℕ → Bytes → Inner → Option Inner
strip_tags zero raw e = some e
strip_tags (suc left) raw e =
    let rest =
      strip_tags left raw (record {
        ether_type = be16 raw (e.offset + 2);
        offset = e.offset + 4;
        tags = e.tags + 1;
      }) in
    if not (is_tag e.ether_type)
    then some e
    else if ltb (length raw) (e.offset + 4)
    then none
    else rest

-- `ethernet_payload`
unfoldable pub ethernet_payload : Bytes → Option Inner
unfolding strip_tags
ethernet_payload raw =
    if ltb (length raw) 14
    then none
    else strip_tags max_vlan_tags raw (record { ether_type = be16 raw 12; offset = 14; tags = 0 })

-- `ethernet_vlan_id`
unfoldable pub ethernet_vlan_id : Bytes → ℕ
ethernet_vlan_id raw =
    if ltb (length raw) 16
    then 0
    else if not (is_tag (be16 raw 12))
    then 0
    else be16 raw 14 % 0x1000
