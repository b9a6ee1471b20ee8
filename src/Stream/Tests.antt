-- ===== src/Stream/Tests.antt =====
-- `StreamHalf` of src/engine.rs at concrete inputs.
use argus_ips.Address.{Bytes, v4}
use argus_ips.Base.{[], ◌∷◌, ◌++◌, none, some, ◌≡◌, ◌⊎◌, refl, arith}
use argus_ips.Files.Hasher.{Digest}
use argus_ips.Stream.FlowKey.{Endpoint, new as new_key, new_lem}
use argus_ips.Stream.Half.Bounds.{IsValid}
use argus_ips.Stream.Half.Segments.{Advances, feed-Advances}
use argus_ips.Stream.Half.{StreamHalf, seq_after, feed}

abbrev keep_bytes : Digest
keep_bytes = record {
  Md5 = Bytes;
  Sha256 = Bytes;
  new_md5 = [];
  new_sha256 = [];
  md5_update = λ s xs. s ++ xs;
  sha256_update = λ s xs. s ++ xs;
  md5_finalize = λ s. s;
  sha256_finalize = λ s. s;
}

-- Position 102, with a segment held that starts at 104; the next segment fills the gap.
abbrev one_held : StreamHalf keep_bytes
one_held = record {
  buffer = 1 ∷ 2 ∷ [];
  stream_cap = 5;
  next_seq = some 102;
  out_of_order = (104, 5 ∷ 6 ∷ []) ∷ [];
  dropped = 0;
  tap = none;
  finished_file = none;
}

one_held-IsValid : IsValid one_held
unfolding seq_after
one_held-IsValid = record { small = omega arith; few = omega arith; ahead = (refl, tt) }

feed-Advances_example :
    Advances keep_bytes 102 one_held (feed keep_bytes one_held 102 (3 ∷ 4 ∷ [])).0
feed-Advances_example =
    feed-Advances keep_bytes one_held 102 (3 ∷ 4 ∷ []) one_held-IsValid (omega arith) (omega arith)

new_lem_example :
    let a : Endpoint = record { ip = v4 (10 ∷ 0 ∷ 0 ∷ 9 ∷ []); port = 80 } in
    let b : Endpoint = record { ip = v4 (10 ∷ 0 ∷ 0 ∷ 1 ∷ []); port = 50000 } in
    let k = new_key a.ip a.port b.ip b.port in
    (k ≡ new_key b.ip b.port a.ip a.port)
    × ((k ≡ record { low = a; high = b }) ⊎ (k ≡ record { low = b; high = a }))
new_lem_example = new_lem (v4 (10 ∷ 0 ∷ 0 ∷ 9 ∷ [])) 80 (v4 (10 ∷ 0 ∷ 0 ∷ 1 ∷ [])) 50000
