-- ===== src/Files/Tests.antt =====
-- src/files.rs at concrete inputs.
use mathlib.Core.List.{append-nil, append_assoc}
use argus_ips.Address.{Bytes}
use argus_ips.Base.{[], ◌∷◌, ◌++◌, ◌≡◌}
use argus_ips.Files.Chunked.Segments.{concat, decode_bytes, Agree, feed-decode_bytes, feed-append}
use argus_ips.Files.Chunked.{new as new_dechunker, feed}
use argus_ips.Files.Hasher.Segments.{IsRunning, Hashed, update_all, update_all_lem}
use argus_ips.Files.Hasher.{Digest, new as new_hasher}

-- The size line of a chunk of three bytes and two of them; then the rest and the last chunk.
abbrev first_segment : Bytes
first_segment = 51 ∷ 13 ∷ 10 ∷ 97 ∷ 98 ∷ []

abbrev second_segment : Bytes
second_segment = 99 ∷ 13 ∷ 10 ∷ 48 ∷ 10 ∷ []

feed-decode_bytes_example :
    Agree (feed new_dechunker first_segment) (decode_bytes new_dechunker first_segment)
feed-decode_bytes_example = feed-decode_bytes new_dechunker first_segment tt

feed-append_example :
    let one = feed new_dechunker (first_segment ++ second_segment) in
    let first = feed new_dechunker first_segment in
    let second = feed first.0 second_segment in
    (one.0 ≡ second.0) × (concat one.1 ≡ concat first.1 ++ concat second.1)
feed-append_example = feed-append new_dechunker first_segment second_segment tt

-- Digests that are the bytes themselves.
abbrev keep_bytes : Digest
keep_bytes = record {
  Md5 = Bytes;
  Sha256 = Bytes;
  new_md5 = [];
  new_sha256 = [];
  md5_update = λ s xs. s ++ xs;
  sha256_update = λ s xs. s ++ xs;
  md5_finalize = λ s. s;
  sha256_finalize = λ s. s;
}

keep_bytes-IsRunning : IsRunning keep_bytes
keep_bytes-IsRunning = record {
  md5_nothing = λ s. append-nil s;
  md5_pieces = λ s xs ys. append_assoc s xs ys;
  sha256_nothing = λ s. append-nil s;
  sha256_pieces = λ s xs ys. append_assoc s xs ys;
}

update_all_lem_example :
    Hashed keep_bytes keep_bytes-IsRunning (concat (first_segment ∷ second_segment ∷ [])) (
      update_all keep_bytes keep_bytes-IsRunning
        (new_hasher keep_bytes)
        (first_segment ∷ second_segment ∷ []))
update_all_lem_example =
    update_all_lem keep_bytes keep_bytes-IsRunning (first_segment ∷ second_segment ∷ [])
