-- ===== src/Decode/Link.antt =====
-- `LinkType` of src/decode.rs, and `Decoder::link_payload`.
use argus_ips.Address.{Bytes}
use argus_ips.Base.{
  ℕ, ◌+◌, ◌*◌, ◌/◌, Bool, true, false, ◌||◌, Option, none, some, ◌>>=◌, length, ltb, leb, ◌==◌,
  if◌then◌else◌,
}
use argus_ips.Packet.Frame.{
  byte, be16, be32, ether_type_ipv4, ether_type_ipv6, Inner, ethernet_payload,
}

pub data LinkType : Type 0 where
  ethernet raw_ip null loop linux_sll linux_sll2 : LinkType
  unsupported : ℕ → LinkType

-- `LinkType::from_dlt`; libpcap's numbers are not negative.
unfoldable pub from_dlt : ℕ → LinkType
from_dlt dlt =
    if dlt == 1
    then ethernet
    else if dlt == 101 || dlt == 228 || dlt == 229
    then raw_ip
    else if dlt == 0
    then null
    else if dlt == 108
    then loop
    else if dlt == 113
    then linux_sll
    else if dlt == 276
    then linux_sll2
    else unsupported dlt

-- `LinkType::is_supported`
abbrev pub is_supported : LinkType → Bool
is_supported (unsupported n) = false
is_supported _ = true

abbrev pub is_ethernet : LinkType → Bool
is_ethernet ethernet = true
is_ethernet _ = false

-- `af_to_ethertype`
unfoldable pub af_to_ethertype : ℕ → Option ℕ
af_to_ethertype af =
    if af == 2
    then some ether_type_ipv4
    else if af == 10 || af == 24 || af == 28 || af == 30
    then some ether_type_ipv6
    else none

-- `u32::from_le_bytes` of the first four bytes.
abbrev pub le32 : Bytes → ℕ
le32 raw = byte raw 0 + byte raw 1 * 256 + byte raw 2 * 65536 + byte raw 3 * 16777216

abbrev plain : ℕ → ℕ → Inner
plain ether_type offset = record { ether_type = ether_type; offset = offset; tags = 0 }

unfoldable pub loopback : Bytes → ℕ → Option Inner
unfolding af_to_ethertype
loopback raw af =
    if ltb (length raw) 4 then none else af_to_ethertype af >>= λ et. some (plain et 4)

-- The raw-IP case, by the version in the first byte.
unfoldable pub raw_ip_payload : Bytes → Option Inner
raw_ip_payload raw =
    if ltb (length raw) 1
    then none
    else if byte raw 0 / 16 == 4
    then some (plain ether_type_ipv4 0)
    else if byte raw 0 / 16 == 6
    then some (plain ether_type_ipv6 0)
    else none

-- `Decoder::link_payload`
unfoldable pub link_payload : LinkType → Bytes → Option Inner
unfolding loopback raw_ip_payload
link_payload ethernet raw = ethernet_payload raw
link_payload raw_ip raw = raw_ip_payload raw
link_payload null raw = loopback raw (if leb (le32 raw) 0xffff then le32 raw else be32 raw 0)
link_payload loop raw = loopback raw (be32 raw 0)
link_payload linux_sll raw = if ltb (length raw) 16 then none else some (plain (be16 raw 14) 16)
link_payload linux_sll2 raw = if ltb (length raw) 20 then none else some (plain (be16 raw 0) 20)
link_payload (unsupported n) raw = none
