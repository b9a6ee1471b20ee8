-- ===== src/Decode/Tunnel/Bounds.antt =====
-- How far `decapsulate` goes.
use argus_ips.Address.{Bytes}
use argus_ips.Base.{ℕ, ◌+◌, ◌*◌, ◌≤◌, Option, none, some, ◌≡◌, length, arith}
use argus_ips.Decode.Stats.{DecodeStats}
use argus_ips.Decode.Tunnel.{Layer}
use argus_ips.Packet.Ip.{ipv4_total_len}

-- The layer, if there is one, is at least `n` bytes shorter than `m`.
abbrev Fits : ℕ → ℕ → Option Layer → Type 0
Fits n m none = Unit
Fits n m (some l) = length l.1 + n ≤ m

ipv4_total_len-le : (ip : Bytes) (ihl : ℕ) → ipv4_total_len ip ihl ≤ length ip
unfolding ipv4_total_len
ipv4_total_len-le ip ihl = ground arith

-- What following tunnels does to the datagram and to the counters.
pub record Follows (depth : ℕ) (l : Layer) (stats : DecodeStats) (r : Layer × DecodeStats)
    : Type 0 where
  pub more : stats.tunnelled ≤ r.1.tunnelled
  pub bounded : r.1.tunnelled ≤ stats.tunnelled + depth
  pub shorter : length r.0.1 + 20 * r.1.tunnelled ≤ length l.1 + 20 * stats.tunnelled
  pub esp_once : r.1.esp_encrypted ≤ stats.esp_encrypted + 1
  pub same_decoded : r.1.decoded ≡ stats.decoded
  pub same_non_ip : r.1.non_ip ≡ stats.non_ip
  pub same_short : r.1.short_frame ≡ stats.short_frame
  pub same_link : r.1.unsupported_link ≡ stats.unsupported_link
  pub same_bad : r.1.bad_ip_header ≡ stats.bad_ip_header
