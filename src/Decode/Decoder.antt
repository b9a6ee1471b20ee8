-- ===== src/Decode/Decoder.antt =====
-- `Decoder` of src/decode.rs: one captured frame becomes a packet, waits, or is counted.
pub mod Counts
pub mod Run
use argus_ips.Address.{Bytes, v4, v6}
use argus_ips.Base.{
  ℕ, ◌+◌, ◌≤◌, min, Bool, true, false, not, ◌&&◌, Option, none, some, length, slice, take, drop,
  ltb, leb, ◌==◌, if◌then◌else◌,
}
use argus_ips.Decode.Fragments.{DefragLimits, Defragmenter, FragKey, Offered, sweep, offer}
use argus_ips.Decode.Link.{LinkType, is_supported, is_ethernet, link_payload}
use argus_ips.Decode.Stats.{DecodeStats}
use argus_ips.Decode.Tunnel.{Layer, decapsulate, max_tunnel_depth}
use argus_ips.Packet.Frame.{ether_type_ipv4, ether_type_ipv6, Inner, ethernet_vlan_id}
use argus_ips.Packet.Ip.{
  Ipv4Fragment, ipv4_fragment, Ipv6Fragment, ipv6_fragment, parse_ip_by_ethertype,
}
use argus_ips.Packet.Transport.{Packet, max_inspect_bytes}

pub data Decoded : Type 0 where
  packet buffered skipped : Decoded

pub record Decoder : Type 0 where
  pub link : LinkType
  pub payload_cap : ℕ
  pub defrag : Defragmenter
  pub stats : DecodeStats

abbrev no_stats : DecodeStats
no_stats = record {
  decoded = 0;
  vlan_tagged = 0;
  fragments_seen = 0;
  datagrams_reassembled = 0;
  fragments_dropped = 0;
  incomplete_datagrams_expired = 0;
  tunnelled = 0;
  esp_encrypted = 0;
  non_ip = 0;
  short_frame = 0;
  unsupported_link = 0;
  bad_ip_header = 0;
}

-- `usize::clamp(1, MAX_INSPECT_BYTES)`
abbrev clamp_cap : ℕ → ℕ
clamp_cap n = if ltb n 1 then 1 else min n max_inspect_bytes

-- `Decoder::new`
unfoldable pub new : LinkType → ℕ → DefragLimits → Decoder
new link payload_cap limits = record {
  link = link;
  payload_cap = clamp_cap payload_cap;
  defrag = argus_ips.Decode.Fragments.new limits;
  stats = no_stats;
}

-- `Decoder::pending_fragments`
abbrev pub pending_fragments : Decoder → ℕ
pending_fragments d = length d.defrag.table

-- What a call leaves behind: its result, the decoder, and the packet that `out` now is.
pub record Frame : Type 0 where
  pub outcome : Decoded
  pub decoder : Decoder
  pub out : Packet

abbrev pub seen : DecodeStats → DecodeStats
seen s = record s { fragments_seen = s.fragments_seen + 1 }

-- The IPv4 fragment `f` of the datagram `ip`, offered.
unfoldable pub offer_ipv4 : Defragmenter → Bytes → Ipv4Fragment → ℕ → DecodeStats → Offered
offer_ipv4 d ip f now_sec stats =
    offer d
      (record {
        src = v4 (slice ip 12 16);
        dst = v4 (slice ip 16 20);
        id = f.id;
        protocol = f.protocol;
      })
      (record {
        offset = f.offset;
        more = f.more;
        payload = f.payload;
        header = f.header;
        v6_next_header = none;
      })
      now_sec (seen stats)

-- The IPv6 fragment `f` of the datagram `ip`, offered.
unfoldable pub offer_ipv6 : Defragmenter → Bytes → Ipv6Fragment → ℕ → DecodeStats → Offered
offer_ipv6 d ip f now_sec stats =
    offer d
      (record {
        src = v6 (slice ip 8 24);
        dst = v6 (slice ip 24 40);
        id = f.id;
        protocol = f.next_header;
      })
      (record {
        offset = f.offset;
        more = f.more;
        payload = f.payload;
        header = slice ip 0 (min f.unfragmentable (length ip));
        v6_next_header = some f.next_header;
      })
      now_sec (seen stats)

-- The fragment of `ip`, offered to the table; `none` where the datagram is whole.
unfoldable pub offered : Defragmenter → ℕ → Bytes → ℕ → DecodeStats → Option Offered
offered d ether_type ip now_sec stats =
    if ether_type == ether_type_ipv4
    then elim (ipv4_fragment ip) [ none ↦ none | some f ↦ some (offer_ipv4 d ip f now_sec stats) ]
    else elim (ipv6_fragment ip) [ none ↦ none | some f ↦ some (offer_ipv6 d ip f now_sec stats) ]

-- The packet of a parsed frame, as `decode` completes it; `raw` is the captured frame.
unfoldable pub complete : Decoder → Bytes → ℕ → Bool → Packet → Packet
complete d raw ts reassembled p = record p {
  ts = ts;
  vlan_id = if is_ethernet d.link then ethernet_vlan_id raw else 0;
  frame_len = length raw;
  is_fragment = if reassembled then false else p.is_fragment;
  payload =
      if ltb d.payload_cap (length p.payload) then take d.payload_cap p.payload else p.payload;
}

-- `decode` from the decapsulation on, of the whole datagram.
unfoldable pub decode_datagram : Decoder → Bytes → ℕ → Bool → Layer → Packet → Frame
decode_datagram d raw ts reassembled outer out =
    let inner : Layer × DecodeStats = decapsulate max_tunnel_depth outer d.stats in
    let parsed : Bool × Packet = parse_ip_by_ethertype inner.0.0 inner.0.1 out in
    let stats = inner.1 in
    if parsed.0
    then record {
      outcome = packet;
      decoder = record d { stats = record stats { decoded = stats.decoded + 1 } };
      out = complete d raw ts reassembled parsed.1;
    }
    else record {
      outcome = skipped;
      decoder = record d { stats = record stats { bad_ip_header = stats.bad_ip_header + 1 } };
      out = parsed.1;
    }

-- `decode` from the fragments on, of the IP datagram `ip`.
unfoldable pub decode_ip : Decoder → Bytes → ℕ → ℕ → ℕ → Bytes → Packet → Frame
decode_ip d raw ts now_sec ether_type ip out =
    elim (offered d.defrag ether_type ip now_sec d.stats) [
      | none ↦ decode_datagram d raw ts false (ether_type, ip) out
      | some o ↦
          let d' = record d { defrag = o.state; stats = o.stats } in
          elim o.datagram [
            | none ↦ record { outcome = buffered; decoder = d'; out = out }
            | some datagram ↦ decode_datagram d' raw ts true (ether_type, datagram) out
          ]
    ]

-- A frame that is given up, with the counters `stats`.
abbrev skip : Decoder → DecodeStats → Packet → Frame
skip d stats out = record { outcome = skipped; decoder = record d { stats = stats }; out = out }

abbrev pub count_tags : ℕ → DecodeStats → DecodeStats
count_tags tags s = if ltb 0 tags then record s { vlan_tagged = s.vlan_tagged + 1 } else s

-- `decode` once the link header is read.
unfoldable pub decode_inner : Decoder → Bytes → ℕ → ℕ → Inner → Packet → Frame
decode_inner d raw ts now_sec e out =
    let s = count_tags e.tags d.stats in
    if not (e.ether_type == ether_type_ipv4) && not (e.ether_type == ether_type_ipv6)
    then skip d (record s { non_ip = s.non_ip + 1 }) out
    else decode_ip (record d { stats = s }) raw ts now_sec e.ether_type
        (drop (min e.offset (length raw)) raw) out

-- `decode` after the sweep.
unfoldable pub decode_swept : Decoder → Bytes → ℕ → ℕ → Packet → Frame
decode_swept d raw ts now_sec out =
    let s = d.stats in
    if not (is_supported d.link)
    then skip d (record s { unsupported_link = s.unsupported_link + 1 }) out
    else elim (link_payload d.link raw) [
      | none ↦ skip d (record s { short_frame = s.short_frame + 1 }) out
      | some e ↦ decode_inner d raw ts now_sec e out
    ]

-- `Decoder::decode`
unfoldable pub decode : Decoder → Bytes → ℕ → ℕ → Packet → Frame
decode d raw ts now_sec out =
    let swept : Defragmenter × DecodeStats = sweep d.defrag now_sec d.stats in
    decode_swept (record d { defrag = swept.0; stats = swept.1 }) raw ts now_sec out
