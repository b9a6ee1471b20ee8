-- ===== src/Stream/Half/Segments.antt =====
-- `StreamHalf::feed`: the bounds and the position after any segment.
use mathlib.Core.Path.{subst}
use argus_ips.Address.{Bytes}
use argus_ips.Base.{
  ℕ, ◌+◌, ◌-◌, ◌%◌, ◌<◌, true, false, List, [], ◌∷◌, Option, none, some, ◌≡◌, refl, sym, ap, length,
  drop, ltb, ◌==◌, nat_eq, arith, Bool-cases, inl, inr,
}
use argus_ips.Files.Hasher.{Digest}
use argus_ips.Stream.Half.Bounds.{Ahead, AllAhead, IsValid, append-Appends, hold_segment-AllAhead}
use argus_ips.Stream.Half.Position.{
  passed, Progress, stay-Progress, append-Progress, then-Progress, same_Progress, drain-Settles,
}
use argus_ips.Stream.Half.{
  seq_mod, wrapping_add, wrapping_sub, seq_after, StreamHalf, hold_segment, append,
  drain_out_of_order, position_or, feed_at, feed,
}

module _ (g : Digest) where
  -- From `s` at position `n` to a valid `r`.
  abbrev pub Advances : ℕ → StreamHalf g → StreamHalf g → Type 0
  Advances n s r = Progress g n s r × IsValid r

  append-Advances :
      (n : ℕ) (s : StreamHalf g) (bytes : Bytes)
      → n < seq_mod
      → s.next_seq ≡ some n
      → IsValid s
      → Advances n s (drain_out_of_order g (append g s bytes))
  unfolding drain_out_of_order
  append-Advances n s bytes lt e v =
      let s2 = append g s bytes in
      let a = append-Appends g s bytes v.small in
      let p = append-Progress g n s bytes v.small e in
      let n2 = (n + (passed g s2 - passed g s)) % seq_mod in
      let held = ap (λ (m : List (ℕ × Bytes)). length m) a.same_held in
      let d =
        drain-Settles g (length s2.out_of_order) n2 s2 (omega arith) (omega arith) p.small
          p.position in
      let r = drain_out_of_order g s2 in
      let all = then-Progress g n s s2 r p d.progress in
      (
        all,
        record { small = all.small; few = omega (arith, v.few, held, d.fewer); ahead = d.ahead },
      )

  stay-Advances :
      (n : ℕ) (s : StreamHalf g) → n < seq_mod → s.next_seq ≡ some n → IsValid s → Advances n s s
  stay-Advances n s lt e v = (stay-Progress g n s lt v.small e, v)

  hold-Advances :
      (n seq : ℕ) (s : StreamHalf g) (bytes : Bytes)
      → n < seq_mod
      → s.next_seq ≡ some n
      → IsValid s
      → seq_after seq n ≡ true
      → Advances n s (record s { out_of_order = hold_segment s.out_of_order seq bytes })
  hold-Advances n seq s bytes lt e v after =
      let r = record s { out_of_order = hold_segment s.out_of_order seq bytes } in
      let all : AllAhead n s.out_of_order =
        subst (λ (o : Option ℕ). Ahead o s.out_of_order) e v.ahead in
      let h = hold_segment-AllAhead n seq bytes s.out_of_order after v.few all in
      (
        same_Progress g r s r n n refl (stay-Progress g n r lt v.small e) refl refl,
        record {
          small = v.small;
          few = h.0;
          ahead = subst (λ (o : Option ℕ). Ahead o r.out_of_order) (sym e) h.1;
        },
      )

  feed_at-Advances :
      (s : StreamHalf g) (n seq : ℕ) (bytes : Bytes)
      → n < seq_mod
      → s.next_seq ≡ some n
      → IsValid s
      → Advances n s (feed_at g s n seq bytes).0
  unfolding feed_at
  feed_at-Advances s n seq bytes lt e v = elim (Bool-cases (seq == n)) [
    | inl a ↦ rw a (append-Advances n s bytes lt e v)
    | inr a ↦ elim (Bool-cases (seq_after seq n)) [
      | inl b ↦ rw (a, b) (hold-Advances n seq s bytes lt e v b)
      | inr b ↦ elim (Bool-cases (seq_after (wrapping_add seq (length bytes)) n)) [
        | inr c ↦ rw (a, b, c) (stay-Advances n s lt e v)
        | inl c ↦ elim (Bool-cases (ltb (wrapping_sub n seq) (length bytes))) [
          | inl d ↦ rw (a, b, c, d) (append-Advances n s (drop (wrapping_sub n seq) bytes) lt e v)
          | inr d ↦ rw (a, b, c, d) (stay-Advances n s lt e v)
        ]
      ]
    ]
  ]

  -- A position is fixed by the first segment, before which nothing is held.
  fix-Ahead :
      (o : Option ℕ) (seq : ℕ) (m : List (ℕ × Bytes)) → Ahead o m → AllAhead (position_or g o seq) m
  fix-Ahead none seq [] h = tt
  fix-Ahead none seq (x ∷ m) h = absurd (omega arith)
  fix-Ahead (some n) seq m h = h

  -- From a valid state at a 32-bit position, after any segment that is not empty, in order, ahead,
  -- overlapping or old: the buffer is inside its cap, at most 16 segments are held and each of
  -- them starts behind the position (none that the stream has reached is left held); and the
  -- position moved, modulo `2 ^ 32`, by exactly the bytes that were kept or counted as dropped.
  pub feed-Advances :
      (s : StreamHalf g) (seq : ℕ) (bytes : Bytes)
      → IsValid s
      → position_or g s.next_seq seq < seq_mod
      → 0 < length bytes
      → Advances (position_or g s.next_seq seq) s (feed g s seq bytes).0
  unfolding feed
  feed-Advances s seq bytes v lt some_bytes =
      let n = position_or g s.next_seq seq in
      let s' = record s { next_seq = some n } in
      let v' : IsValid s' = record {
        small = v.small;
        few = v.few;
        ahead = fix-Ahead s.next_seq seq s.out_of_order v.ahead;
      } in
      let a = feed_at-Advances s' n seq bytes lt refl v' in
      let k : (length bytes == 0) ≡ false = ground arith in
      rw k (same_Progress g s' s (feed_at g s' n seq bytes).0 n n refl a.0 refl refl, a.1)
