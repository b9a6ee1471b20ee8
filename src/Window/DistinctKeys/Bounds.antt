-- ===== src/Window/DistinctKeys/Bounds.antt =====
-- The cap of `WindowSet`: it holds after every insertion, and a refusal is counted.
use argus_ips.Base.{
  ℕ, ◌+◌, ◌<◌, ◌≤◌, false, some, ◌≡◌, refl, Eq, length, leb, if◌then◌else◌, arith, Bool-cases, inl,
  inr,
}
use argus_ips.HashMap.{
  Distinct, get, get-insert, length-insert, insert-Distinct, get-retain, retain-Distinct,
  length-retain,
}
use argus_ips.Window.DistinctKeys.{WindowSet, is_live, prune, is_refused, insert_pruned, insert_key}

pub record IsValid {K : Type 0} ⦃e : Eq K⦄ (s : WindowSet K) : Type 0 where
  pub positive : 0 < s.cap
  pub bounded : length s.seen ≤ s.cap
  pub distinct : Distinct s.seen

module _ {K : Type 0} ⦃e : Eq K⦄ where
  pub prune-IsValid : (s : WindowSet K) (now w : ℕ) → IsValid s → IsValid (prune s now w)
  unfolding prune
  prune-IsValid s now w v = elim (Bool-cases (leb (s.last_pruned + 1) now)) [
    | inl h ↦ rw h (record {
      positive = v.positive;
      bounded = omega (arith, length-retain (is_live now w) s.seen);
      distinct = retain-Distinct (is_live now w) s.seen v.distinct;
    })
    | inr h ↦ rw h v
  ]

  insert_pruned-IsValid :
      (s : WindowSet K) (k : K) (now : ℕ) → IsValid s → IsValid (insert_pruned s k now).0
  unfolding insert_pruned is_refused
  insert_pruned-IsValid s k now v =
      ground (arith, length-insert k now s.seen, insert-Distinct k now s.seen v.distinct)

  insert_pruned-length :
      (s : WindowSet K) (k : K) (now : ℕ)
      → (insert_pruned s k now).1 ≡ length (insert_pruned s k now).0.seen
  unfolding insert_pruned
  insert_pruned-length s k now = ground arith

  -- Inserting keeps the table valid: it never holds more keys than its cap, never a key twice, and
  -- the number returned is the number of keys held.
  pub insert_key-IsValid :
      (s : WindowSet K) (k : K) (now w : ℕ)
      → IsValid s
      → IsValid (insert_key s k now w).0
        × ((insert_key s k now w).1 ≡ length (insert_key s k now w).0.seen)
  unfolding insert_key
  insert_key-IsValid s k now w v = (
    insert_pruned-IsValid (prune s now w) k now (prune-IsValid s now w v),
    insert_pruned-length (prune s now w) k now,
  )

  -- What a lookup finds after an insertion.
  pub get-insert_key :
      (s : WindowSet K) (k j : K) (now w : ℕ)
      → get j (insert_key s k now w).0.seen ≡ (
          if is_refused (prune s now w) k
          then get j (prune s now w).seen
          else if e.beq k j
          then some now
          else get j (prune s now w).seen)
  unfolding insert_key insert_pruned
  get-insert_key s k j now w = elim (Bool-cases (is_refused (prune s now w) k)) [
    | inl h ↦ rw h refl
    | inr h ↦ rw h (get-insert k j now (prune s now w).seen)
  ]

  get-prune :
      (s : WindowSet K) (j : K) (now w : ℕ) {t : ℕ}
      → IsValid s
      → get j s.seen ≡ some t
      → now < t + w
      → get j (prune s now w).seen ≡ some t
  unfolding prune
  get-prune s j now w v h l = ground (arith, get-retain (is_live now w) j s.seen v.distinct)

  -- Pressure evicts nothing: a key whose last sighting is still inside the window keeps it through
  -- the insertion of any other key, also when the table is full and the insertion is refused.
  pub insert_key_keeps_live :
      (s : WindowSet K) (k j : K) (now w : ℕ) {t : ℕ}
      → IsValid s
      → e.beq k j ≡ false
      → get j s.seen ≡ some t
      → now < t + w
      → get j (insert_key s k now w).0.seen ≡ some t
  insert_key_keeps_live s k j now w v ne h l =
      ground (arith, get-insert_key s k j now w, get-prune s j now w v h l)
