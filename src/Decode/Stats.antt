-- ===== src/Decode/Stats.antt =====
-- `DecodeStats` of src/decode.rs: why frames did not turn into packets.
use argus_ips.Base.{ℕ, ◌+◌}

pub record DecodeStats : Type 0 where
  pub decoded : ℕ
  pub vlan_tagged : ℕ
  pub fragments_seen : ℕ
  pub datagrams_reassembled : ℕ
  pub fragments_dropped : ℕ
  pub incomplete_datagrams_expired : ℕ
  pub tunnelled : ℕ
  pub esp_encrypted : ℕ
  pub non_ip : ℕ
  pub short_frame : ℕ
  pub unsupported_link : ℕ
  pub bad_ip_header : ℕ

-- `DecodeStats::merged`
unfoldable pub merged : DecodeStats → DecodeStats → DecodeStats
merged s o = record {
  decoded = s.decoded + o.decoded;
  vlan_tagged = s.vlan_tagged + o.vlan_tagged;
  fragments_seen = s.fragments_seen + o.fragments_seen;
  datagrams_reassembled = s.datagrams_reassembled + o.datagrams_reassembled;
  fragments_dropped = s.fragments_dropped + o.fragments_dropped;
  incomplete_datagrams_expired = s.incomplete_datagrams_expired + o.incomplete_datagrams_expired;
  tunnelled = s.tunnelled + o.tunnelled;
  esp_encrypted = s.esp_encrypted + o.esp_encrypted;
  non_ip = s.non_ip + o.non_ip;
  short_frame = s.short_frame + o.short_frame;
  unsupported_link = s.unsupported_link + o.unsupported_link;
  bad_ip_header = s.bad_ip_header + o.bad_ip_header;
}

-- `DecodeStats::undecoded`
unfoldable pub undecoded : DecodeStats → ℕ
undecoded s = s.non_ip + s.short_frame + s.unsupported_link + s.bad_ip_header
