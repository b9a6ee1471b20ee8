-- ===== src/Files/Hasher.antt =====
-- `FileHasher` of src/files.rs. The two digests are of library crates: `Digest` holds what the code
-- calls of them.
pub mod Segments
use argus_ips.Address.{Bytes}
use argus_ips.Base.{
  ℕ, ◌+◌, ◌-◌, min, Bool, true, false, ◌||◌, [], ◌++◌, Option, none, some, length, take, ltb, ◌==◌,
  if◌then◌else◌,
}
use Prim.Native.String.{String}
use argus_ips.Files.Magic.{identify, describe, hex}

pub record Digest : Type 1 where
  pub Md5 : Type 0
  pub Sha256 : Type 0
  pub new_md5 : Md5
  pub new_sha256 : Sha256
  pub md5_update : Md5 → Bytes → Md5
  pub sha256_update : Sha256 → Bytes → Sha256
  pub md5_finalize : Md5 → Bytes
  pub sha256_finalize : Sha256 → Bytes

abbrev pub head_bytes : ℕ
head_bytes = 264

abbrev pub max_stream_hash : ℕ
max_stream_hash = 67_108_864

pub record FileInfo : Type 0 where
  pub size : ℕ
  pub md5 : Bytes
  pub sha256 : Bytes
  pub truncated : Bool
  pub kind : Option String
  pub magic : Option String

pub record FileHasher (g : Digest) : Type 0 where
  pub md5 : g.Md5
  pub sha256 : g.Sha256
  pub size : ℕ
  pub head : Bytes
  pub truncated : Bool

module _ (g : Digest) where
  -- `FileHasher::default`
  unfoldable pub new : FileHasher g
  new = record { md5 = g.new_md5; sha256 = g.new_sha256; size = 0; head = []; truncated = false }

  -- The room that `head` has for bytes of `data_in`.
  abbrev pub push_head : Bytes → Bytes → Bytes
  push_head head data_in =
      if ltb (length head) head_bytes
      then head ++ take (min (head_bytes - length head) (length data_in)) data_in
      else head

  unfoldable pub update_some : FileHasher g → Bytes → FileHasher g
  update_some h bytes =
      let taken = min (length bytes) (max_stream_hash - h.size) in
      let data_in = take taken bytes in
      record {
        md5 = g.md5_update h.md5 data_in;
        sha256 = g.sha256_update h.sha256 data_in;
        size = h.size + taken;
        head = push_head h.head data_in;
        truncated = if ltb taken (length bytes) then true else h.truncated;
      }

  -- `FileHasher::update`
  unfoldable pub update : FileHasher g → Bytes → FileHasher g
  update h bytes = if h.truncated || length bytes == 0 then h else update_some h bytes

  -- `FileHasher::finish`
  unfoldable pub finish : FileHasher g → Bool → Option FileInfo
  finish h incomplete =
      if h.size == 0
      then none
      else some (record {
        size = h.size;
        md5 = hex (g.md5_finalize h.md5);
        sha256 = hex (g.sha256_finalize h.sha256);
        truncated = h.truncated || incomplete;
        kind = identify h.head;
        magic = describe h.head;
      })
