-- ===== src/Decode/Tests.antt =====
-- src/decode.rs at concrete inputs.
use argus_ips.Address.{Bytes, v4}
use argus_ips.Base.{
  max, min, ◌⊎◌, ◌↔◌, ℕ, zero, suc, ◌+◌, ◌<◌, ◌≤◌, false, List, [], ◌∷◌, none, some, ◌≡◌, refl, inl,
  inr, length, arith,
}
use argus_ips.Decode.Decoder.Counts.{Counted, decode-Counted}
use argus_ips.Decode.Decoder.Run.{
  Captured, decode_all, waiting, AllCapped, TableOf, decode_all_accounts, decode_all_bounds,
}
use argus_ips.Decode.Decoder.{new, decode}
use argus_ips.Decode.Fragments.Complete.{IsPart, Covers, assemble-AllParts}
use argus_ips.Decode.Fragments.Table.{IsValid, sweep_lem, offer-IsValid, offer_other}
use argus_ips.Decode.Fragments.{
  last_wins, Partial, assemble, FragKey, frag_key_eq_instance, Fragment, default_limits,
  Defragmenter, sweep, offer,
}
use argus_ips.Decode.Link.{raw_ip}
use argus_ips.Decode.Stats.{DecodeStats, undecoded}
use argus_ips.HashMap.{get}
use argus_ips.Packet.Transport.{default_packet}

-- A payload of three bytes, cut into two overlapping pieces that came last piece first.
abbrev two_pieces : Partial
two_pieces = record {
  pieces = (1, 8 ∷ 9 ∷ []) ∷ (0, 7 ∷ 8 ∷ []) ∷ [];
  bytes = 4;
  total = some 3;
  header = 69 ∷ [];
  v6_next_header = none;
  first_seen = 50;
}

first_IsPart : IsPart (7 ∷ 8 ∷ 9 ∷ []) (1, 8 ∷ 9 ∷ [])
first_IsPart zero b h = absurd (cc)
first_IsPart (suc zero) b h = h
first_IsPart (suc (suc zero)) b h = h
first_IsPart (suc (suc (suc p))) b h = ground arith

second_IsPart : IsPart (7 ∷ 8 ∷ 9 ∷ []) (0, 7 ∷ 8 ∷ [])
second_IsPart zero b h = h
second_IsPart (suc zero) b h = h
second_IsPart (suc (suc p)) b h = ground arith

two_pieces-Covers : (i : ℕ) → i < 3 → Covers two_pieces.pieces i
two_pieces-Covers zero h = inr (inl (7, refl))
two_pieces-Covers (suc zero) h = inl (8, refl)
two_pieces-Covers (suc (suc zero)) h = inl (9, refl)
two_pieces-Covers (suc (suc (suc i))) h = absurd (omega arith)

assemble-AllParts_example : assemble last_wins two_pieces ≡ some (7 ∷ 8 ∷ 9 ∷ [])
assemble-AllParts_example =
    assemble-AllParts last_wins two_pieces (7 ∷ 8 ∷ 9 ∷ []) refl (first_IsPart, (second_IsPart, tt))
      two_pieces-Covers

abbrev key_of : ℕ → FragKey
key_of id = record {
  src = v4 (10 ∷ 0 ∷ 0 ∷ 1 ∷ []);
  dst = v4 (10 ∷ 0 ∷ 0 ∷ 2 ∷ []);
  id = id;
  protocol = 17;
}

abbrev one_datagram : Defragmenter
one_datagram = record {
  limits = default_limits;
  table = (key_of 5, two_pieces) ∷ [];
  last_swept = 50;
}

one_datagram-IsValid : IsValid one_datagram
one_datagram-IsValid = record {
  bounded = omega arith;
  distinct = (refl, tt);
  fit = (record { few = omega arith; small = omega arith; counted = refl }, tt);
}

abbrev no_stats : DecodeStats
no_stats = record {
  decoded = 0;
  vlan_tagged = 0;
  fragments_seen = 0;
  datagrams_reassembled = 0;
  fragments_dropped = 0;
  incomplete_datagrams_expired = 0;
  tunnelled = 0;
  esp_encrypted = 0;
  non_ip = 0;
  short_frame = 0;
  unsupported_link = 0;
  bad_ip_header = 0;
}

abbrev last_piece : Fragment
last_piece = record {
  offset = 8;
  more = false;
  payload = 1 ∷ 2 ∷ [];
  header = 69 ∷ [];
  v6_next_header = none;
}

sweep_lem_example :
    let s = sweep one_datagram 90 no_stats in
    IsValid s.0
    × (s.1.incomplete_datagrams_expired + length s.0.table ≡ 0 + 1)
    × (s.0.last_swept ≡ max one_datagram.last_swept 90)
    × ((get (key_of 5) s.0.table ≡ some two_pieces) ↔ (
        (get (key_of 5) one_datagram.table ≡ some two_pieces)
        × ((90 ≤ one_datagram.last_swept)
            ⊎ (90 < two_pieces.first_seen + one_datagram.limits.timeout_secs))))
sweep_lem_example = sweep_lem one_datagram 90 no_stats (key_of 5) two_pieces one_datagram-IsValid

offer-IsValid_example : IsValid (offer one_datagram (key_of 6) last_piece 60 no_stats).state
offer-IsValid_example =
    offer-IsValid one_datagram (key_of 6) last_piece 60 no_stats one_datagram-IsValid

offer_other_example :
    get (key_of 5) (offer one_datagram (key_of 6) last_piece 60 no_stats).state.table
    ≡ get (key_of 5) one_datagram.table
offer_other_example =
    offer_other one_datagram (key_of 6) last_piece 60 no_stats (key_of 5) one_datagram-IsValid refl

-- An IPv4 header of the given length and protocol.
abbrev ip_header : ℕ → ℕ → Bytes
ip_header len protocol =
    69 ∷ 0 ∷ 0 ∷ len ∷ 0 ∷ 1 ∷ 0 ∷ 0 ∷ 64 ∷ protocol ∷ 0 ∷ 0 ∷ 10 ∷ 0 ∷ 0 ∷ 1 ∷ 10 ∷ 0 ∷ 0 ∷ 2 ∷ []

abbrev ip_in_ip : Bytes
ip_in_ip =
    69
    ∷ 0
    ∷ 0
    ∷ 40
    ∷ 0
    ∷ 1
    ∷ 0
    ∷ 0
    ∷ 64
    ∷ 4
    ∷ 0
    ∷ 0
    ∷ 10
    ∷ 0
    ∷ 0
    ∷ 1
    ∷ 10
    ∷ 0
    ∷ 0
    ∷ 2
    ∷ ip_header 20 6

decode-Counted_example :
    let f = decode (new raw_ip 512 default_limits) ip_in_ip 5 1 default_packet in
    Counted (new raw_ip 512 default_limits).stats f.outcome f.decoder.stats
decode-Counted_example = decode-Counted (new raw_ip 512 default_limits) ip_in_ip 5 1 default_packet

abbrev two_frames : List Captured
two_frames =
    record { raw = ip_in_ip; ts = 5; now_sec = 1 } ∷ record { raw = []; ts = 6; now_sec = 2 } ∷ []

decode_all_accounts_example :
    let r = decode_all (new raw_ip 512 default_limits) default_packet two_frames in
    r.0.stats.decoded + undecoded r.0.stats + waiting r.1 ≡ 2
decode_all_accounts_example =
    decode_all_accounts raw_ip 512 default_limits default_packet two_frames

decode_all_bounds_example :
    let d = new raw_ip 512 default_limits in
    let r = decode_all d default_packet two_frames in
    TableOf default_limits r.0.defrag
    × (d.payload_cap ≡ min (max 512 1) 9216)
    × AllCapped (min (max 512 1) 9216) r.1
decode_all_bounds_example = decode_all_bounds raw_ip 512 default_limits default_packet two_frames
