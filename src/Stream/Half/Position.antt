-- ===== src/Stream/Half/Position.antt =====
-- Where a stream stands after a segment, and that no segment behind that place is left held.
use mathlib.Core.Path.{subst}
use argus_ips.Address.{Bytes}
use argus_ips.Base.{
  ℕ, zero, suc, ◌+◌, ◌-◌, ◌%◌, ◌<◌, ◌≤◌, List, [], ◌∷◌, Option, none, some, ◌≡◌, refl, sym, ap, ◌∙◌,
  length, drop, nat_eq, arith, Bool-cases, Option-cases, inl, inr,
}
use argus_ips.Files.Hasher.{Digest}
use argus_ips.HashMap.{remove}
use argus_ips.Stream.Half.Bounds.{
  Ahead, append-Appends, reached-AllAhead, reached-get, length-remove_held,
}
use argus_ips.Stream.Half.{
  seq_mod, wrapping_add, wrapping_sub, seq_after, StreamHalf, reached, advance, append, deliver,
  drain,
}

-- Two advances of a position are one.
mod_add : (n a b : ℕ) → ((n + a) % seq_mod + b) % seq_mod ≡ (n + (a + b)) % seq_mod
mod_add n a b = omega arith

nothing_held : (o : Option ℕ) (m : List (ℕ × Bytes)) → length m ≤ 0 → Ahead o m
nothing_held none m h = omega arith
nothing_held (some n) [] h = tt
nothing_held (some n) (x ∷ m) h = absurd (omega arith)

module _ (g : Digest) where
  -- The bytes that the stream has passed: those kept and those counted as dropped.
  abbrev pub passed : StreamHalf g → ℕ
  passed s = length s.buffer + s.dropped

  -- From `s` at position `n` to `r`: the position moves by exactly the bytes that are kept or
  -- counted as dropped.
  pub record Progress (n : ℕ) (s r : StreamHalf g) : Type 0 where
    pub same_cap : r.stream_cap ≡ s.stream_cap
    pub small : length r.buffer ≤ r.stream_cap
    pub more : passed s ≤ passed r
    pub position : r.next_seq ≡ some ((n + (passed r - passed s)) % seq_mod)

  pub stay-Progress :
      (n : ℕ) (s : StreamHalf g)
      → n < seq_mod
      → length s.buffer ≤ s.stream_cap
      → s.next_seq ≡ some n
      → Progress n s s
  stay-Progress n s lt h e =
      let k : (n + (passed s - passed s)) % seq_mod ≡ n = omega arith in
      record { same_cap = refl; small = h; more = omega arith; position = rw k e }

  pub append-Progress :
      (n : ℕ) (s : StreamHalf g) (bytes : Bytes)
      → length s.buffer ≤ s.stream_cap
      → s.next_seq ≡ some n
      → Progress n s (append g s bytes)
  append-Progress n s bytes h e =
      let a = append-Appends g s bytes h in
      let k : length bytes ≡ passed (append g s bytes) - passed s = omega (arith, a.counts) in
      record {
        same_cap = a.same_cap;
        small = a.small;
        more = omega (arith, a.counts);
        position =
            a.moves
            ∙ ap (λ (o : Option ℕ). advance o (length bytes)) e
            ∙ ap (λ (x : ℕ). some ((n + x) % seq_mod)) k;
      }

  pub then-Progress :
      (n : ℕ) (s r u : StreamHalf g)
      → Progress n s r
      → Progress ((n + (passed r - passed s)) % seq_mod) r u
      → Progress n s u
  then-Progress n s r u p q =
      let k : passed r - passed s + (passed u - passed r) ≡ passed u - passed s =
        omega (arith, p.more, q.more) in
      let m = mod_add n (passed r - passed s) (passed u - passed r) in
      record {
        same_cap = q.same_cap ∙ p.same_cap;
        small = q.small;
        more = omega (arith, p.more, q.more);
        position = q.position ∙ ap (λ (x : ℕ). some x) (m ∙ ap (λ (x : ℕ). (n + x) % seq_mod) k);
      }

  deliver-Progress :
      (n start : ℕ) (s : StreamHalf g) (bytes : Bytes)
      → n < seq_mod
      → length s.buffer ≤ s.stream_cap
      → s.next_seq ≡ some n
      → Progress n s (deliver g s n start bytes)
        × ((deliver g s n start bytes).out_of_order ≡ s.out_of_order)
  unfolding deliver
  deliver-Progress n start s bytes lt h e =
      let fresh = drop (wrapping_sub n start) bytes in
      elim (Bool-cases (seq_after (wrapping_add start (length bytes)) n)) [
        | inl c ↦ rw c (append-Progress n s fresh h e, (append-Appends g s fresh h).same_held)
        | inr c ↦ rw c (stay-Progress n s lt h e, refl)
      ]

  -- What the end of a drain is: progress, no more held segments, and all of those ahead.
  pub record Settles (n : ℕ) (s r : StreamHalf g) : Type 0 where
    pub progress : Progress n s r
    pub fewer : length r.out_of_order ≤ length s.out_of_order
    pub ahead : Ahead r.next_seq r.out_of_order

  pub same_Progress :
      (s1 s r : StreamHalf g) (n1 n : ℕ)
      → n1 ≡ n
      → Progress n1 s1 r
      → (s1.stream_cap ≡ s.stream_cap)
      → (passed s1 ≡ passed s)
      → Progress n s r
  same_Progress s1 s r n1 n e p c k = record {
    same_cap = p.same_cap ∙ c;
    small = p.small;
    more = omega (arith, p.more, k);
    position = rw (← e, ← k) p.position;
  }

  pub drain-Settles :
      (rounds n : ℕ) (s : StreamHalf g)
      → length s.out_of_order ≤ rounds
      → n < seq_mod
      → length s.buffer ≤ s.stream_cap
      → s.next_seq ≡ some n
      → Settles n s (drain g rounds s)
  unfolding drain
  drain-Settles zero n s r lt h e = record {
    progress = stay-Progress n s lt h e;
    fewer = omega arith;
    ahead = nothing_held s.next_seq s.out_of_order (omega arith);
  }
  drain-Settles (suc rounds) n s r lt h e =
      let at_n = ap (λ (o : Option ℕ). reached o s.out_of_order) e in
      elim (Option-cases (reached s.next_seq s.out_of_order)) [
        | inl f ↦
            let all = reached-AllAhead n s.out_of_order (sym at_n ∙ f) in
            rw (f, drain)
              (record {
                progress = stay-Progress n s lt h e;
                fewer = omega arith;
                ahead = subst (λ (o : Option ℕ). Ahead o s.out_of_order) (sym e) all;
              })
        | inr ((next, start, bytes), f) ↦
            let k = reached-get n s.out_of_order (sym at_n ∙ f) in
            let s1 = record s { out_of_order = remove start s.out_of_order } in
            let s2 = deliver g s1 next start bytes in
            let e1 : s1.next_seq ≡ some next = e ∙ ap (λ (x : ℕ). some x) (sym k.0) in
            let p = deliver-Progress next start s1 bytes (omega (arith, k.0)) h e1 in
            let n2 = (next + (passed s2 - passed s1)) % seq_mod in
            let shorter = length-remove_held start s.out_of_order k.1 in
            let held : length s2.out_of_order ≡ length (remove start s.out_of_order) =
              ap (λ (m : List (ℕ × Bytes)). length m) p.1 in
            let i =
              drain-Settles rounds n2 s2 (omega (arith, shorter, held)) (omega arith) p.0.small
                p.0.position in
            let all = then-Progress next s1 s2 (drain g rounds s2) p.0 i.progress in
            rw (f, drain)
              (record {
                progress = same_Progress s1 s (drain g rounds s2) next n k.0 all refl refl;
                fewer = omega (arith, shorter, held, i.fewer);
                ahead = i.ahead;
              })
      ]
