-- ===== src/Lib.antt =====
-- A model of ARGUS-IPS: frames come from a capture, are decoded into packets, detectors and rules
-- raise alerts, and a gate decides which of them are reported.
--
-- The parts and their files:
-- src/packet.rs: Packet/Frame (bytes, `ethernet_payload`, VLAN tags), Packet/Transport (`Packet`,
--   `parse_transport`), Packet/Ip (`parse_ipv4_packet`, `parse_ipv6_packet`, `ipv4_fragment`,
--   `ipv6_fragment`) and Packet/Ip/Chain (the loops over IPv6 extension headers).
-- src/decode.rs: Decode/Stats (`DecodeStats`), Decode/Link (`LinkType`, `link_payload`),
--   Decode/Fragments (`Defragmenter`, `Partial`), Decode/Tunnel (`decapsulate`) and Decode/Decoder
--   (`Decoder::decode`, which sweeps the table, strips the link header, offers a fragment to the
--   table, follows tunnels and calls the parser).
-- src/window.rs: Window/DistinctKeys (`WindowSet`), Window/RateWindow, Window/AlertGate and
--   Window/Periodicity, the state that detectors keep.
-- src/threshold.rs: Threshold/Gate (`Gate`, the windows of `admit` and the bits of
--   `xbits_apply`) and Threshold/Run (`settle` and the loop `run_threshold_gate`).
-- src/files.rs: Files/Chunked (`Dechunker`), Files/Hasher (`FileHasher`) and Files/Magic
--   (`identify`, `describe`, `hex`).
-- src/engine.rs: Stream/Tap (`BodyTap`) and Stream/Half (`StreamHalf`, whose `feed` appends a
--   segment, holds it or drops it, and whose appended bytes go to the tap and so to Files)
--   and Stream/FlowKey (`FlowKey::new`).
-- src/rules.rs: Rules/Address (`IpMatch`, `prefix_eq`, `PortMatch`), Rules/Header (`HeaderMatch` and
--   the tests on lengths, flags and streams), Rules/Number (`NumberFormat`, `byte_test`,
--   `byte_jump`, `byte_extract`, `byte_math`, `isdataat`), Rules/Vars (`Vars`, `resolve`, `shift`),
--   Rules/Search (`find_subslice`, `find_nocase`), Rules/Content (`ContentMatch`,
--   `Backtracking::find_from`), Rules/Base64, Rules/Transform, Rules/Flowbits (`FlowBits`, whose
--   `mark_part` keeps its records in a list and then in a table), Rules/Effects (`apply_effects`,
--   `flowbits_hold`), Rules/Terms (`Rule::content_matches`, a walk over the terms whose state is
--   the bytes read, the cursor and the variables) and Rules/Prefilter (`evaluate_rule`,
--   `RuleGroup::build` and `run_group`, which evaluates the rules that its automaton proposes).
-- HashMap is std's map as a list of pairs with distinct keys; Base and Address hold shared names,
-- lists over the native numbers and the equality of addresses.
--
-- Numbers are natural numbers. A `u16` or `u32` read from bytes is in range by the way it is read;
-- the `u32` counter of a window wraps as in the code. Times are natural numbers: the code's `i64`
-- seconds are those of captured packets. A difference of times is written as a sum on the other
-- side. The payload array of a packet is the list of its first `payload_len` bytes. The bound on
-- IPv6 extension headers (nine) and on tunnels (four) is the code's own and is the argument that
-- the loops recurse on. Two loops are given rounds: `Dechunker::feed` one for each byte, since no
-- round leaves its data as it was, and `drain_out_of_order` one for each held segment, since each
-- round removes one. `find_nocase` has a round for each place where a match can start. An `i64` is
-- an integer, and the operations that check or saturate have its bounds. Sums that the code does
-- not check wrap as in a release build: the buckets and the total of `RateWindow`, the bytes of a
-- stream in `FlowBits`, the end of a number in text. Where the last of these makes a slice panic,
-- the outcome of the read is a panic (Base/Panics), and so is that of the rule and of its group.
--
-- Parameters: `f64` in Periodicity (a record of operations), the rules that a generation of the
-- ruleset has and the sort of held alerts in Threshold/Run, MD5 and SHA-256 in Files/Hasher, the
-- digests in Rules/Transform, `memchr` in Rules/Search, the `regex` and `fancy-regex` engines in
-- Rules/Content, and the `aho-corasick` automaton in Rules/Prefilter. The channels of
-- `run_threshold_gate` are the list of alerts that it receives and the list that it has sent.
--
-- Not modelled: the parser of rules, the grouping of rules by buffer (`check`, `check_stream`)
-- and the count of abandoned searches (src/rules.rs), the flow table, detectors and protocol
-- readers (the rest of src/engine.rs, src/enterprise.rs, src/quic.rs, src/tlscert.rs), the
-- behaviour detectors (src/behavior.rs), and the parts that are input, output or glue
-- (src/main.rs, src/config.rs, src/output.rs, src/metrics.rs, src/reload.rs, src/intel.rs); the
-- text forms of addresses, names for printing, and the parsers of rule options.
pub mod Base
pub mod HashMap
pub mod Window
pub mod Address
pub mod Threshold
pub mod Packet
pub mod Decode
pub mod Files
pub mod Stream
pub mod Rules
