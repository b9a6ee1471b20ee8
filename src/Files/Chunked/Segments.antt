-- ===== src/Files/Chunked/Segments.antt =====
-- What `Dechunker` gives does not depend on how the stream was cut into segments.
use mathlib.Core.List.{append_assoc}
use argus_ips.Address.{Bytes}
use argus_ips.Base.{
  ℕ, zero, suc, ◌-◌, ◌<◌, ◌≤◌, min, Bool, true, false, List, [], ◌∷◌, ◌++◌, ◌≡◌, refl, sym, ap, ◌∙◌,
  length, take, drop, length-drop, if◌then◌else◌, arith, Bool-cases, inl, inr,
}
use argus_ips.Files.Chunked.{
  ChunkState, chunk_size, extension, chunk_data, data_end, Dechunker, to_digit, push_digit,
  end_line, line_byte, after_data, end_byte, round, loop, feed,
}

abbrev pub concat : List Bytes → Bytes
concat [] = []
concat (p ∷ ps) = p ++ concat ps

-- A reference decoder, byte by byte: the state after a byte, and the bytes of the body in it.
abbrev pub step_at : ChunkState → Dechunker → ℕ → Dechunker × Bytes
step_at chunk_size d b = (line_byte d b false, [])
step_at extension d b = (line_byte d b true, [])
step_at (chunk_data n) d b = (record d { state = after_data (n - 1) }, b ∷ [])
step_at (data_end k) d b = (end_byte d k, [])

unfoldable pub decode_bytes : Dechunker → Bytes → Dechunker × Bytes
decode_bytes d [] = (d, [])
decode_bytes d (b ∷ rest) =
    let r = step_at d.state d b in
    let s = decode_bytes r.0 rest in if d.done then (d, []) else (s.0, r.1 ++ s.1)

-- A chunk in progress has bytes left.
abbrev pub Live : ChunkState → Type 0
Live (chunk_data n) = 0 < n
Live _ = Unit

line_byte-Live : (d : Dechunker) (b : ℕ) (e : Bool) → Live d.state → Live (line_byte d b e).state
unfolding line_byte end_line push_digit to_digit
line_byte-Live d b e h = ground arith

after_data-Live : (n : ℕ) → Live (after_data n)
after_data-Live zero = tt
after_data-Live (suc n) = omega arith

end_byte-Live : (d : Dechunker) (k : ℕ) → Live (end_byte d k).state
unfolding end_byte
end_byte-Live d k = ground arith

if_false {ℓ} : {A : Type ℓ} (b : Bool) (x y : A) → b ≡ false → (if b then x else y) ≡ y
if_false true x y h = absurd (cc)
if_false false x y h = refl

if_true {ℓ} : {A : Type ℓ} (b : Bool) (x y : A) → b ≡ true → (if b then x else y) ≡ x
if_true true x y h = refl
if_true false x y h = absurd (cc)

decode_bytes_done : (d : Dechunker) (xs : Bytes) → d.done ≡ true → decode_bytes d xs ≡ (d, [])
unfolding decode_bytes
decode_bytes_done d [] h = refl
decode_bytes_done d (b ∷ rest) h = if_true d.done _ _ h

decode_bytes_step :
    (d : Dechunker) (b : ℕ) (xs : Bytes)
    → d.done ≡ false
    → let q = step_at d.state d b in
      decode_bytes d (b ∷ xs) ≡ ((decode_bytes q.0 xs).0, q.1 ++ (decode_bytes q.0 xs).1)
unfolding decode_bytes
decode_bytes_step d b xs h = if_false d.done _ _ h

decode_bytes-nil : (d : Dechunker) → decode_bytes d [] ≡ (d, [])
unfolding decode_bytes
decode_bytes-nil d = refl

decode_bytes-append :
    (d : Dechunker) (xs ys : Bytes)
    → let r = decode_bytes d xs in
      decode_bytes d (xs ++ ys) ≡ ((decode_bytes r.0 ys).0, r.1 ++ (decode_bytes r.0 ys).1)
decode_bytes-append d [] ys = rw (decode_bytes-nil d) refl
decode_bytes-append d (b ∷ xs) ys = elim (Bool-cases d.done) [
  | inl h ↦
      rw
        (
          decode_bytes_done d (b ∷ (xs ++ ys)) h,
          decode_bytes_done d (b ∷ xs) h,
          decode_bytes_done d ys h,
        )
        refl
  | inr h ↦
      let q = step_at d.state d b in
      let tail = decode_bytes q.0 xs in
      rw
        (
          decode_bytes_step d b (xs ++ ys) h,
          decode_bytes_step d b xs h,
          decode_bytes-append q.0 xs ys,
          append_assoc q.1 tail.1 (decode_bytes tail.0 ys).1,
        )
        refl
]

-- `n` bytes of data are still to come.
abbrev with_left : Dechunker → ℕ → Dechunker
with_left d n = record d { state = after_data n }

decode_bytes-data :
    (d : Dechunker) (n : ℕ) (xs : Bytes)
    → d.done ≡ false
    → let t = min n (length xs) in
      let s = decode_bytes (with_left d (n - t)) (drop t xs) in
      decode_bytes (with_left d n) xs ≡ (s.0, take t xs ++ s.1)
decode_bytes-data d zero xs h = let m : min 0 (length xs) ≡ 0 = omega arith in rw m refl
decode_bytes-data d (suc n) [] h =
    let m : min (suc n) 0 ≡ 0 = omega arith in
    let k : suc n - 0 ≡ suc n = omega arith in
    rw (m, k, decode_bytes-nil (with_left d (suc n))) refl
decode_bytes-data d (suc n) (b ∷ xs) h =
    let m : min (suc n) (suc (length xs)) ≡ suc (min n (length xs)) = omega arith in
    let k : suc n - suc (min n (length xs)) ≡ n - min n (length xs) = omega arith in
    let p : suc n - 1 ≡ n = omega arith in
    rw (decode_bytes_step (with_left d (suc n)) b xs h, m, k, p, decode_bytes-data d n xs h) refl

-- The loop agrees with the reference on the decoder and on the bytes of the body.
abbrev pub Agree : Dechunker × List Bytes → Dechunker × Bytes → Type 0
Agree r q = (r.0 ≡ q.0) × (concat r.1 ≡ q.1)

-- One round does what the reference does on the bytes that it takes, if the rounds behind it do.
round-decode_bytes :
    (n : ℕ) (d : Dechunker) (b : ℕ) (xs : Bytes) (st : ChunkState)
    → ((d' : Dechunker) (ys : Bytes)
        → length ys ≤ n
        → Live d'.state
        → Agree (loop n d' ys) (decode_bytes d' ys))
    → length xs ≤ n
    → d.done ≡ false
    → Live d.state
    → Live st
    → let r = round st d b xs in
      let s = loop n r.decoder r.rest in
      let q = step_at st d b in
      Agree (s.0, r.pieces ++ s.1) ((decode_bytes q.0 xs).0, q.1 ++ (decode_bytes q.0 xs).1)
unfolding round
round-decode_bytes n d b xs chunk_size next h e v w =
    next (line_byte d b false) xs h (line_byte-Live d b false v)
round-decode_bytes n d b xs extension next h e v w =
    next (line_byte d b true) xs h (line_byte-Live d b true v)
round-decode_bytes n d b xs (data_end k) next h e v w = next (end_byte d k) xs h (end_byte-Live d k)
round-decode_bytes n d b xs (chunk_data zero) next h e v w = absurd (omega arith)
round-decode_bytes n d b xs (chunk_data (suc j)) next h e v w =
    let t = min (suc j) (suc (length xs)) in
    let d' = with_left d (suc j - t) in
    let rest = drop t (b ∷ xs) in
    let short = length-drop t (b ∷ xs) in
    let i = next d' rest (omega (arith, short)) (after_data-Live (suc j - t)) in
    let whole : (
      (decode_bytes (with_left d (suc j - 1)) xs).0,
      b ∷ (decode_bytes (with_left d (suc j - 1)) xs).1,
    )
        ≡ ((decode_bytes d' rest).0, take t (b ∷ xs) ++ (decode_bytes d' rest).1) =
      sym (decode_bytes_step (with_left d (suc j)) b xs e)
      ∙ decode_bytes-data d (suc j) (b ∷ xs) e in
    (
      i.0 ∙ sym (ap (λ (x : Dechunker × Bytes). x.0) whole),
      ap (λ (x : Bytes). take t (b ∷ xs) ++ x) i.1
          ∙ sym (ap (λ (x : Dechunker × Bytes). x.1) whole),
    )

loop_step :
    (n : ℕ) (d : Dechunker) (b : ℕ) (xs : Bytes)
    → d.done ≡ false
    → let r = round d.state d b xs in
      let s = loop n r.decoder r.rest in loop (suc n) d (b ∷ xs) ≡ (s.0, r.pieces ++ s.1)
unfolding loop
loop_step n d b xs h = if_false d.done _ _ h

loop_done : (n : ℕ) (d : Dechunker) (xs : Bytes) → d.done ≡ true → loop n d xs ≡ (d, [])
unfolding loop
loop_done zero d xs h = refl
loop_done (suc n) d [] h = refl
loop_done (suc n) d (b ∷ xs) h = if_true d.done _ _ h

loop-nil : (n : ℕ) (d : Dechunker) → loop n d [] ≡ (d, [])
unfolding loop
loop-nil zero d = refl
loop-nil (suc n) d = refl

loop-decode_bytes :
    (rounds : ℕ) (d : Dechunker) (xs : Bytes)
    → length xs ≤ rounds
    → Live d.state
    → Agree (loop rounds d xs) (decode_bytes d xs)
loop-decode_bytes n d [] h v = rw (loop-nil n d, decode_bytes-nil d) (refl, refl)
loop-decode_bytes zero d (b ∷ xs) h v = absurd (omega arith)
loop-decode_bytes (suc n) d (b ∷ xs) h v = elim (Bool-cases d.done) [
  | inl e ↦ rw (loop_done (suc n) d (b ∷ xs) e, decode_bytes_done d (b ∷ xs) e) (refl, refl)
  | inr e ↦
      rw (loop_step n d b xs e, decode_bytes_step d b xs e)
        (round-decode_bytes n d b xs d.state (λ d' ys. loop-decode_bytes n d' ys) (omega arith) e v
          v)
]

-- For a decoder whose chunk in progress, if any, has bytes left, feeding a segment is the same as
-- decoding its bytes one at a time: the rounds given to the loop are enough, every byte is read
-- unless the body has ended, and what the sink receives, piece by piece, are the bytes of the
-- body.
pub feed-decode_bytes :
    (d : Dechunker) (xs : Bytes) → Live d.state → Agree (feed d xs) (decode_bytes d xs)
unfolding feed
feed-decode_bytes d xs v = loop-decode_bytes (length xs) d xs (omega arith) v

step_at-Live :
    (st : ChunkState) (d : Dechunker) (b : ℕ) → Live d.state → Live (step_at st d b).0.state
step_at-Live chunk_size d b v = line_byte-Live d b false v
step_at-Live extension d b v = line_byte-Live d b true v
step_at-Live (chunk_data n) d b v = after_data-Live (n - 1)
step_at-Live (data_end k) d b v = end_byte-Live d k

decode_bytes-Live : (d : Dechunker) (xs : Bytes) → Live d.state → Live (decode_bytes d xs).0.state
unfolding decode_bytes
decode_bytes-Live d [] v = v
decode_bytes-Live d (b ∷ xs) v =
    ground (arith, decode_bytes-Live (step_at d.state d b).0 xs (step_at-Live d.state d b v))

-- How the stream is cut into segments does not matter: from a decoder whose chunk in progress, if
-- any, has bytes left, two segments leave the decoder, and give the sink the bytes, that one
-- segment with the bytes of both does.
pub feed-append :
    (d : Dechunker) (xs ys : Bytes)
    → Live d.state
    → let one = feed d (xs ++ ys) in
      let first = feed d xs in
      let second = feed first.0 ys in
      (one.0 ≡ second.0) × (concat one.1 ≡ concat first.1 ++ concat second.1)
feed-append d xs ys v =
    let first = feed-decode_bytes d xs v in
    let live = decode_bytes-Live d xs v in
    let second = feed-decode_bytes (decode_bytes d xs).0 ys live in
    let one = feed-decode_bytes d (xs ++ ys) v in
    let split = decode_bytes-append d xs ys in
    rw (first.0, first.1, second.0, second.1, one.0, one.1, split) (refl, refl)
