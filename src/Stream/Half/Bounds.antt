-- ===== src/Stream/Half/Bounds.antt =====
-- What `StreamHalf` holds, after every segment.
use mathlib.Core.Path.{subst}
use argus_ips.Address.{Bytes}
use argus_ips.Base.{
  ℕ, suc, ◌+◌, ◌-◌, ◌≤◌, min, true, [], ◌∷◌, ◌++◌, Option, none, some, ◌≡◌, refl, length,
  length-append, length-take, take, drop, nat_eq, arith, Bool-cases, Option-cases, inl, inr,
}
use argus_ips.Files.Hasher.{Digest}
use argus_ips.HashMap.{HashMap, get, insert, remove}
use argus_ips.Stream.Half.{
  seq_after, max_ooo_segments, StreamHalf, insert_in_order, hold_segment, first_reached, reached,
  advance, feed_tap, append,
}
use argus_ips.Stream.Tap.{BodyTap}

-- Every held segment starts behind the position.
abbrev pub AllAhead : ℕ → HashMap ℕ Bytes → Type 0
AllAhead next [] = Unit
AllAhead next ((k, v) ∷ m) = (seq_after k next ≡ true) × AllAhead next m

abbrev pub Ahead : Option ℕ → HashMap ℕ Bytes → Type 0
Ahead none m = length m ≡ 0
Ahead (some next) m = AllAhead next m

pub record IsValid {g : Digest} (s : StreamHalf g) : Type 0 where
  pub small : length s.buffer ≤ s.stream_cap
  pub few : length s.out_of_order ≤ max_ooo_segments
  pub ahead : Ahead s.next_seq s.out_of_order

AllAhead-insert_in_order :
    (next k : ℕ) (v : Bytes) (m : HashMap ℕ Bytes)
    → seq_after k next ≡ true
    → AllAhead next m
    → AllAhead next (insert_in_order k v m)
AllAhead-insert_in_order next k v [] h a = (h, tt)
AllAhead-insert_in_order next k v ((j, w) ∷ m) h a =
    ground (arith, AllAhead-insert_in_order next k v m h a.1)

AllAhead-insert :
    (next k : ℕ) (v : Bytes) (m : HashMap ℕ Bytes)
    → seq_after k next ≡ true
    → AllAhead next m
    → AllAhead next (insert k v m)
AllAhead-insert next k v [] h a = (h, tt)
AllAhead-insert next k v ((j, w) ∷ m) h a = ground (arith, AllAhead-insert next k v m h a.1)

length-insert_in_order :
    (k : ℕ) (v : Bytes) (m : HashMap ℕ Bytes) → length (insert_in_order k v m) ≡ suc (length m)
length-insert_in_order k v [] = refl
length-insert_in_order k v ((j, w) ∷ m) = ground (arith, length-insert_in_order k v m)

length-insert_held :
    (k : ℕ) (v : Bytes) (m : HashMap ℕ Bytes) {w : Bytes}
    → get k m ≡ some w
    → length (insert k v m) ≡ length m
length-insert_held k v [] h = absurd (cc)
length-insert_held k v ((j, u) ∷ m) {w} h = ground (arith, length-insert_held k v m {w = w})

pub hold_segment-AllAhead :
    (next seq : ℕ) (bytes : Bytes) (m : HashMap ℕ Bytes)
    → seq_after seq next ≡ true
    → length m ≤ max_ooo_segments
    → AllAhead next m
    → (length (hold_segment m seq bytes) ≤ max_ooo_segments)
      × AllAhead next (hold_segment m seq bytes)
unfolding hold_segment
hold_segment-AllAhead next seq bytes m h few a = elim (Option-cases (get seq m)) [
  | inl e ↦
      rw (e, hold_segment)
        (
          ground (arith, length-insert_in_order seq bytes m),
          ground (arith, AllAhead-insert_in_order next seq bytes m h a),
        )
  | inr (held, e) ↦
      let longer = held ++ drop (length held) bytes in
      rw (e, hold_segment)
        (
          ground (arith, length-insert_held seq longer m e),
          ground (arith, AllAhead-insert next seq longer m h a),
        )
]

first_reached-AllAhead :
    (next : ℕ) (m : HashMap ℕ Bytes) → first_reached next m ≡ none → AllAhead next m
unfolding first_reached
first_reached-AllAhead next [] h = tt
first_reached-AllAhead next ((k, v) ∷ m) h = ground (arith, first_reached-AllAhead next m)

first_reached-get :
    (next : ℕ) (m : HashMap ℕ Bytes) {k : ℕ} → first_reached next m ≡ some k → get k m ≡ none → ⊥
unfolding first_reached
first_reached-get next [] h e = absurd (cc)
first_reached-get next ((j, v) ∷ m) {k} h e = ground (arith, first_reached-get next m {k = k})

pub length-remove_held :
    (k : ℕ) (m : HashMap ℕ Bytes) {v : Bytes}
    → get k m ≡ some v
    → suc (length (remove k m)) ≡ length m
length-remove_held k [] h = absurd (cc)
length-remove_held k ((j, u) ∷ m) {v} h = ground (arith, length-remove_held k m {v = v})

-- Nothing is reached only where all is ahead.
pub reached-AllAhead :
    (next : ℕ) (m : HashMap ℕ Bytes) → reached (some next) m ≡ none → AllAhead next m
reached-AllAhead next m h = elim (Option-cases (first_reached next m)) [
  | inl e ↦ first_reached-AllAhead next m e
  | inr (start, e) ↦ elim (Option-cases (get start m)) [
    | inl c ↦ absurd (first_reached-get next m e c)
    | inr (bytes, c) ↦
        let h' : ◌≡◌ {A = Option (ℕ × ℕ × Bytes)} (some (next, start, bytes)) none =
          rw (e, c) at h in
        absurd (cc)
  ]
]

pub reached-get :
    (next : ℕ) (m : HashMap ℕ Bytes) {r : ℕ × ℕ × Bytes}
    → reached (some next) m ≡ some r
    → (r.0 ≡ next) × (get r.1 m ≡ some r.2)
reached-get next m {r} h = elim (Option-cases (first_reached next m)) [
  | inl e ↦ let h' : none ≡ some r = rw e at h in absurd (cc)
  | inr (start, e) ↦ elim (Option-cases (get start m)) [
    | inl c ↦ let h' : none ≡ some r = rw (e, c) at h in absurd (cc)
    | inr (bytes, c) ↦
        let h' : some (next, start, bytes) ≡ some r = rw (e, c) at h in
        let q : (next, start, bytes) ≡ r = cc in
        subst (λ (x : ℕ × ℕ × Bytes). (x.0 ≡ next) × (get x.1 m ≡ some x.2)) q (refl, c)
  ]
]

module _ (g : Digest) where
  -- The fields that the tap does not touch.
  abbrev pub SameStream : StreamHalf g → StreamHalf g → Type 0
  SameStream s r =
      (r.buffer ≡ s.buffer)
      × (r.stream_cap ≡ s.stream_cap)
      × (r.next_seq ≡ s.next_seq)
      × (r.out_of_order ≡ s.out_of_order)
      × (r.dropped ≡ s.dropped)

  feed_tap-SameStream : (s : StreamHalf g) (bytes : Bytes) → SameStream s (feed_tap g s bytes)
  unfolding feed_tap
  feed_tap-SameStream s bytes = elim (Option-cases s.tap) [
    | inl e ↦ rw (e, feed_tap) (refl, refl, refl, refl, refl)
    | inr (t, e) ↦
        let t' = argus_ips.Stream.Tap.feed g t bytes in
        elim (Bool-cases t'.done) [
          | inl h ↦ rw (e, feed_tap, h) (refl, refl, refl, refl, refl)
          | inr h ↦ rw (e, feed_tap, h) (refl, refl, refl, refl, refl)
        ]
  ]

  -- Appending: the held segments and the cap stay, the buffer stays inside the cap, the position
  -- moves by the bytes given, and each of them is kept or counted as dropped.
  pub record Appends (s : StreamHalf g) (n : ℕ) (r : StreamHalf g) : Type 0 where
    pub same_held : r.out_of_order ≡ s.out_of_order
    pub same_cap : r.stream_cap ≡ s.stream_cap
    pub small : length r.buffer ≤ r.stream_cap
    pub moves : r.next_seq ≡ advance s.next_seq n
    pub counts : length r.buffer + r.dropped ≡ length s.buffer + s.dropped + n

  pub append-Appends :
      (s : StreamHalf g) (bytes : Bytes)
      → length s.buffer ≤ s.stream_cap
      → Appends s (length bytes) (append g s bytes)
  unfolding append
  append-Appends s bytes h =
      let taken = min (length bytes) (s.stream_cap - length s.buffer) in
      let s' = record s {
        buffer = s.buffer ++ take taken bytes;
        dropped = s.dropped + (length bytes - taken);
        next_seq = advance s.next_seq (length bytes);
      } in
      let same = feed_tap-SameStream s' bytes in
      let len = length-append s.buffer (take taken bytes) in
      let part = length-take taken bytes in
      record {
        same_held = same.3;
        same_cap = same.1;
        small = rw (same.0, same.1) (omega (arith, len, part, h));
        moves = same.2;
        counts = rw (same.0, same.4) (omega (arith, len, part, h));
      }
