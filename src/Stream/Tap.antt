-- ===== src/Stream/Tap.antt =====
-- `BodyTap` of src/engine.rs: one HTTP body, hashed as its segments arrive.
use argus_ips.Address.{Bytes}
use argus_ips.Base.{
  ℕ, ◌-◌, min, Bool, false, ◌||◌, List, [], ◌∷◌, Option, none, some, length, take, ◌==◌,
  if◌then◌else◌,
}
use argus_ips.Files.Chunked.{Dechunker}
use argus_ips.Files.Hasher.{Digest, FileHasher, FileInfo, update}

pub record BodyTap (g : Digest) : Type 0 where
  pub hasher : FileHasher g
  pub remaining : Option ℕ
  pub chunk : Option Dechunker
  pub done : Bool
  pub incomplete : Bool

abbrev is_bad : Option Dechunker → Bool
is_bad none = false
is_bad (some c) = c.bad

module _ (g : Digest) where
  -- The sink of the chunked decoder.
  abbrev pub update_each : FileHasher g → List Bytes → FileHasher g
  update_each h [] = h
  update_each h (piece ∷ pieces) = update_each (update g h piece) pieces

  -- The branch of `feed` for a chunked body.
  unfoldable pub feed_chunked : BodyTap g → Dechunker → Bytes → BodyTap g
  feed_chunked t c bytes =
      let r : Dechunker × List Bytes = argus_ips.Files.Chunked.feed c bytes in
      record {
        hasher = update_each t.hasher r.1;
        remaining = t.remaining;
        chunk = some r.0;
        done = r.0.done;
        incomplete = r.0.bad || t.incomplete;
      }

  -- And for one of a known length, of which `left` bytes are still to come.
  unfoldable pub feed_counted : BodyTap g → ℕ → Bytes → BodyTap g
  feed_counted t left bytes =
      let taken = min left (length bytes) in
      record t {
        hasher = update g t.hasher (take taken bytes);
        remaining = some (left - taken);
        done = left - taken == 0;
      }

  -- `BodyTap::feed`, when the body has not ended.
  unfoldable pub feed_open : BodyTap g → Bytes → BodyTap g
  feed_open t bytes = elim t.chunk [
    | some c ↦ feed_chunked t c bytes
    | none ↦ elim t.remaining [
      | some left ↦ feed_counted t left bytes
      | none ↦ record t { hasher = update g t.hasher bytes }
    ]
  ]

  -- `BodyTap::feed`
  unfoldable pub feed : BodyTap g → Bytes → BodyTap g
  feed t bytes = if t.done then t else feed_open t bytes

  -- `BodyTap::finish`
  unfoldable pub finish : BodyTap g → Option FileInfo
  finish t =
      if t.incomplete || is_bad t.chunk
      then none
      else argus_ips.Files.Hasher.finish g t.hasher false
