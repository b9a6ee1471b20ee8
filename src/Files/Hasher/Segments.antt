-- ===== src/Files/Hasher/Segments.antt =====
-- What `FileHasher` gives, for a body in any number of segments.
use mathlib.Core.List.{append-nil, append_assoc}
use argus_ips.Address.{Bytes}
use argus_ips.Base.{
  ℕ, zero, suc, ◌+◌, ◌-◌, ◌≤◌, ◌<◌, min, Bool, true, false, List, [], ◌∷◌, ◌++◌, ◌≡◌, refl, sym,
  length, take, length-take, length-append, ltb, if◌then◌else◌, arith, Bool-cases, inl, inr,
}
use argus_ips.Files.Chunked.Segments.{concat}
use argus_ips.Files.Hasher.{
  Digest, FileHasher, head_bytes, max_stream_hash, new, push_head, update_some, update,
}

-- A running digest of a body in pieces is the digest of the whole body.
pub record IsRunning (g : Digest) : Type 0 where
  pub md5_nothing : (s : g.Md5) → g.md5_update s [] ≡ s
  pub md5_pieces :
      (s : g.Md5) (xs ys : Bytes) → g.md5_update (g.md5_update s xs) ys ≡ g.md5_update s (xs ++ ys)
  pub sha256_nothing : (s : g.Sha256) → g.sha256_update s [] ≡ s
  pub sha256_pieces :
      (s : g.Sha256) (xs ys : Bytes)
      → g.sha256_update (g.sha256_update s xs) ys ≡ g.sha256_update s (xs ++ ys)

take-append {ℓ} :
    {A : Type ℓ} (n : ℕ) (xs ys : List A) → take n (xs ++ ys) ≡ take n xs ++ take (n - length xs) ys
take-append zero [] ys = refl
take-append (suc n) [] ys = let e : suc n - 0 ≡ suc n = omega arith in rw e refl
take-append zero (x ∷ xs) ys = let e : 0 - suc (length xs) ≡ 0 = omega arith in rw e refl
take-append (suc n) (x ∷ xs) ys =
    let e : suc n - suc (length xs) ≡ n - length xs = omega arith in
    rw (e, take-append n xs ys) refl

take-min {ℓ} : {A : Type ℓ} (n : ℕ) (xs : List A) → take (min n (length xs)) xs ≡ take n xs
take-min zero xs = let e : min 0 (length xs) ≡ 0 = omega arith in rw e refl
take-min (suc n) [] = let e : min (suc n) 0 ≡ 0 = omega arith in rw e refl
take-min (suc n) (x ∷ xs) =
    let e : min (suc n) (suc (length xs)) ≡ suc (min n (length xs)) = omega arith in
    rw (e, take-min n xs) refl

take-take {ℓ} : {A : Type ℓ} (k n : ℕ) (xs : List A) → k ≤ n → take k (take n xs) ≡ take k xs
take-take zero n xs h = refl
take-take (suc k) zero xs h = absurd (omega arith)
take-take (suc k) (suc n) [] h = refl
take-take (suc k) (suc n) (x ∷ xs) h = rw (take-take k n xs (omega arith)) refl

-- Nothing of what follows a long enough list is taken.
take-append_left {ℓ} :
    {A : Type ℓ} (n : ℕ) (xs ys : List A) → n ≤ length xs → take n (xs ++ ys) ≡ take n xs
take-append_left n xs ys h =
    let e : n - length xs ≡ 0 = omega arith in
    rw (take-append n xs ys, e, append-nil (take n xs)) refl

-- The mark of a body of `n` bytes, and after `m` more.
truncated_after :
    (most n m : ℕ) (t : Bool)
    → t ≡ ltb most n
    → n ≤ most
    → (if ltb (min (most - n) m) m then true else t) ≡ ltb most (n + m)
truncated_after most n m t e h = ground arith

truncated_kept : (most n m : ℕ) (t : Bool) → t ≡ ltb most n → most < n → t ≡ ltb most (n + m)
truncated_kept most n m t e h = ground arith

truncated_lt : (most n : ℕ) (t : Bool) → t ≡ ltb most n → t ≡ true → most < n
truncated_lt most n t e h = ground arith

truncated_le : (most n : ℕ) (t : Bool) → t ≡ ltb most n → t ≡ false → n ≤ most
truncated_le most n t e h = ground arith

module _ (g : Digest) (running : IsRunning g) where
  -- The hasher after a body: the digests of what the cap lets through, the bytes counted, the head,
  -- and whether the cap cut anything off.
  abbrev pub Hashed : Bytes → FileHasher g → Type 0
  Hashed body h =
      (h.md5 ≡ g.md5_update g.new_md5 (take max_stream_hash body))
      × (h.sha256 ≡ g.sha256_update g.new_sha256 (take max_stream_hash body))
      × (h.size ≡ min max_stream_hash (length body))
      × (h.head ≡ take head_bytes body)
      × (h.truncated ≡ ltb max_stream_hash (length body))

  new-Hashed : Hashed [] (new g)
  unfolding new
  new-Hashed = (
    sym (running.md5_nothing g.new_md5),
    sym (running.sha256_nothing g.new_sha256),
    omega arith,
    refl,
    ground arith,
  )

  -- The head after a segment, of which the cap lets `room` bytes through.
  head-append :
      (body xs : Bytes) (room : ℕ)
      → head_bytes ≤ room + length body
      → push_head g (take head_bytes body) (take room xs) ≡ take head_bytes (body ++ xs)
  head-append body xs room h =
      let short = length-take head_bytes body in
      elim (Bool-cases (ltb (length (take head_bytes body)) head_bytes)) [
        | inl e ↦
            let k : head_bytes - length (take head_bytes body) ≡ head_bytes - length body =
              ground arith in
            let m = take-min (head_bytes - length body) (take room xs) in
            let t = take-take (head_bytes - length body) room xs (omega arith) in
            rw (e, k, m, t, take-append head_bytes body xs) refl
        | inr e ↦ rw (e, take-append_left head_bytes body xs (ground arith)) refl
      ]

  update_some-Hashed :
      (body xs : Bytes) (h : FileHasher g)
      → length body ≤ max_stream_hash
      → Hashed body h
      → Hashed (body ++ xs) (update_some g h xs)
  unfolding update_some
  update_some-Hashed body xs h room v =
      let left = max_stream_hash - length body in
      let r : min (length xs) (max_stream_hash - h.size) ≡ min left (length xs) =
        omega (arith, v.2) in
      let len = length-append body xs in
      let before = take max_stream_hash body in
      (
        rw
            (
              r,
              take-min left xs,
              v.0,
              running.md5_pieces g.new_md5 before (take left xs),
              take-append max_stream_hash body xs,
            )
            refl,
        rw
            (
              r,
              take-min left xs,
              v.1,
              running.sha256_pieces g.new_sha256 before (take left xs),
              take-append max_stream_hash body xs,
            )
            refl,
        omega (arith, len, v.2),
        rw (r, take-min left xs, v.3) (head-append body xs left (omega arith)),
        rw (r, len)
            (truncated_after max_stream_hash (length body) (length xs) h.truncated v.4 room),
      )

  kept-Hashed :
      (body xs : Bytes) (h : FileHasher g)
      → max_stream_hash < length body
      → Hashed body h
      → Hashed (body ++ xs) h
  kept-Hashed body xs h over v =
      let len = length-append body xs in
      let same = take-append_left max_stream_hash body xs (omega arith) in
      (
        rw same v.0,
        rw same v.1,
        omega (arith, len, v.2),
        rw (take-append_left head_bytes body xs (omega arith)) v.3,
        rw len (truncated_kept max_stream_hash (length body) (length xs) h.truncated v.4 over),
      )

  update-nil : (h : FileHasher g) → update g h [] ≡ h
  unfolding update
  update-nil h = ground arith

  update_truncated : (h : FileHasher g) (xs : Bytes) → h.truncated ≡ true → update g h xs ≡ h
  unfolding update
  update_truncated h xs e = ground arith

  update_open :
      (h : FileHasher g) (x : ℕ) (xs : Bytes)
      → h.truncated ≡ false
      → update g h (x ∷ xs) ≡ update_some g h (x ∷ xs)
  unfolding update
  update_open h x xs e = ground arith

  update-Hashed :
      (body xs : Bytes) (h : FileHasher g) → Hashed body h → Hashed (body ++ xs) (update g h xs)
  update-Hashed body [] h v = rw (append-nil body, update-nil h) v
  update-Hashed body (x ∷ xs) h v = elim (Bool-cases h.truncated) [
    | inl e ↦ rw (update_truncated h (x ∷ xs) e) (
        kept-Hashed body (x ∷ xs) h (truncated_lt max_stream_hash (length body) h.truncated v.4 e)
          v)
    | inr e ↦ rw (update_open h x xs e) (
        update_some-Hashed body (x ∷ xs) h
          (truncated_le max_stream_hash (length body) h.truncated v.4 e) v)
  ]

  -- A body in segments.
  unfoldable pub update_all : FileHasher g → List Bytes → FileHasher g
  update_all h [] = h
  update_all h (xs ∷ rest) = update_all (update g h xs) rest

  update_all-Hashed :
      (body : Bytes) (segments : List Bytes) (h : FileHasher g)
      → Hashed body h
      → Hashed (body ++ concat segments) (update_all h segments)
  unfolding update_all
  update_all-Hashed body [] h v = rw (append-nil body) v
  update_all-Hashed body (xs ∷ rest) h v =
      rw (← append_assoc body xs (concat rest))
        (update_all-Hashed (body ++ xs) rest (update g h xs) (update-Hashed body xs h v))

  -- However a body comes in segments, the hasher ends with the digests of its first 64 MiB, with
  -- their number, with the first 264 bytes, and marked as truncated exactly if there was more. The
  -- digests are assumed to be running ones.
  pub update_all_lem :
      (segments : List Bytes) → Hashed (concat segments) (update_all (new g) segments)
  update_all_lem segments = update_all-Hashed [] segments (new g) new-Hashed
