-- ===== src/Rules/Number/Digits.antt =====
-- The digits of a number in a buffer (src/rules.rs): their value fits a `u64`.
use argus_ips.Address.{Bytes}
use argus_ips.Base.{
  ℕ, zero, suc, ◌+◌, ◌*◌, ◌^◌, ◌<◌, ◌≤◌, u64_range, checked_u64, [], ◌∷◌, ◌++◌, Option, none, some,
  ◌>>=◌, length, take, drop, length-append, Holds, Holds-bind, ◌≡◌, refl, ap, ◌∙◌, arith,
}
use native.Mathlib.Nat.{mul-le-mul_right}
use argus_ips.Rules.Address.Prefix.{AreOctets}
use argus_ips.Rules.Number.{
  Endian, big, little, fold_big, reverse, read_binary, radix_digit, read_digits,
}

pub AreOctets-take : (n : ℕ) (bs : Bytes) → AreOctets bs → AreOctets (take n bs)
AreOctets-take zero bs h = _
AreOctets-take (suc n) [] h = _
AreOctets-take (suc n) (b ∷ bs) h = (h.0, AreOctets-take n bs h.1)

pub AreOctets-drop : (n : ℕ) (bs : Bytes) → AreOctets bs → AreOctets (drop n bs)
AreOctets-drop zero bs h = h
AreOctets-drop (suc n) [] h = _
AreOctets-drop (suc n) (b ∷ bs) h = AreOctets-drop n bs h.1

AreOctets-append : (a b : Bytes) → AreOctets a → AreOctets b → AreOctets (a ++ b)
AreOctets-append [] b h k = k
AreOctets-append (x ∷ a) b h k = (h.0, AreOctets-append a b h.1 k)

AreOctets-reverse : (bs : Bytes) → AreOctets bs → AreOctets (reverse bs)
AreOctets-reverse [] h = _
AreOctets-reverse (b ∷ bs) h =
    AreOctets-append (reverse bs) (b ∷ []) (AreOctets-reverse bs h.1) (h.0, _)

length-reverse : (bs : Bytes) → length (reverse bs) ≡ length bs
length-reverse [] = refl
length-reverse (b ∷ bs) = omega (arith, length-append (reverse bs) (b ∷ []), length-reverse bs)

reassoc : (a p : ℕ) → a * 256 * p ≡ a * (p * 256)
reassoc a p = omega arith

fold_big-bound : (v : ℕ) (bs : Bytes) → AreOctets bs → fold_big v bs + 1 ≤ (v + 1) * 256 ^ length bs
fold_big-bound v [] h = omega arith
fold_big-bound v (b ∷ bs) h =
    let f : 256 ^ length bs * 256 ≡ 256 ^ suc (length bs) = omega arith in
    let e : (v + 1) * 256 * 256 ^ length bs ≡ (v + 1) * 256 ^ suc (length bs) =
      reassoc (v + 1) (256 ^ length bs) ∙ ap (◌*◌ (v + 1)) f in
    omega (
      arith,
      fold_big-bound (v * 256 + b) bs h.1,
      mul-le-mul_right {m = v * 256 + b + 1} {n = (v + 1) * 256} (256 ^ length bs)
          (omega (arith, h.0)),
      e,
    )

pub power_bound : (n : ℕ) → n ≤ 8 → 256 ^ n ≤ u64_range
power_bound zero h = omega arith
power_bound (suc zero) h = omega arith
power_bound (suc (suc zero)) h = omega arith
power_bound (suc (suc (suc zero))) h = omega arith
power_bound (suc (suc (suc (suc zero)))) h = omega arith
power_bound (suc (suc (suc (suc (suc zero))))) h = omega arith
power_bound (suc (suc (suc (suc (suc (suc zero)))))) h = omega arith
power_bound (suc (suc (suc (suc (suc (suc (suc zero))))))) h = omega arith
power_bound (suc (suc (suc (suc (suc (suc (suc (suc zero)))))))) h = omega arith
power_bound (suc (suc (suc (suc (suc (suc (suc (suc (suc k))))))))) h = absurd (omega arith)

checked_u64-bound : (n m : ℕ) → checked_u64 n ≡ some m → m < u64_range
checked_u64-bound n m h = ground (arith, h)

-- What the loop over digits may give: it stops in the text, which it may not have moved in, and its
-- number fits a `u64`.
abbrev pub IsUsed : ℕ → ℕ → ℕ × ℕ → Type 0
IsUsed used stop r = (used ≤ r.1) × (r.1 ≤ stop) × (r.0 < u64_range)

-- The loop once a byte is read as a digit or not.
abbrev after_digit : ℕ → Bytes → ℕ → ℕ → Option ℕ → Option (ℕ × ℕ)
after_digit radix bs v used o = elim o [
  | none ↦ some (v, used)
  | some d ↦ checked_u64 (v * radix) >>= λ scaled.
      checked_u64 (scaled + d) >>= λ next. read_digits radix bs next (used + 1)
]

IsUsed-widen :
    (used stop : ℕ) (o : Option (ℕ × ℕ))
    → Holds (IsUsed (used + 1) stop) o
    → Holds (IsUsed used stop) o
IsUsed-widen used stop none h = _
IsUsed-widen used stop (some r) h = (omega (arith, h.0), h.1, h.2)

after_digit-IsUsed :
    (radix : ℕ) (bs : Bytes) (v used stop : ℕ) (o : Option ℕ)
    → v < u64_range
    → used ≤ stop
    → ((next : ℕ)
        → next < u64_range
        → Holds (IsUsed (used + 1) stop) (read_digits radix bs next (used + 1)))
    → Holds (IsUsed used stop) (after_digit radix bs v used o)
after_digit-IsUsed radix bs v used stop none h k rec = (omega arith, k, h)
after_digit-IsUsed radix bs v used stop (some d) h k rec =
    Holds-bind (IsUsed used stop) (checked_u64 (v * radix))
      (λ scaled. checked_u64 (scaled + d) >>= λ next. read_digits radix bs next (used + 1))
      (λ scaled _.
        Holds-bind (IsUsed used stop) (checked_u64 (scaled + d))
          (λ next. read_digits radix bs next (used + 1))
          (λ next q.
            IsUsed-widen used stop (read_digits radix bs next (used + 1))
              (rec next (checked_u64-bound (scaled + d) next q))))

pub read_digits-IsUsed :
    (radix : ℕ) (bs : Bytes) (v used stop : ℕ)
    → v < u64_range
    → used + length bs ≤ stop
    → Holds (IsUsed used stop) (read_digits radix bs v used)
read_digits-IsUsed radix [] v used stop h k = (omega arith, omega (arith, k), h)
read_digits-IsUsed radix (b ∷ bs) v used stop h k =
    after_digit-IsUsed radix bs v used stop (radix_digit radix b) h (omega (arith, k))
      (λ next q. read_digits-IsUsed radix bs next (used + 1) stop q (omega (arith, k)))

pub read_binary-bound :
    (endian : Endian) (bs : Bytes) → AreOctets bs → read_binary endian bs < 256 ^ length bs
read_binary-bound big bs h = omega (arith, fold_big-bound 0 bs h)
read_binary-bound little bs h =
    let e : 256 ^ length (reverse bs) ≡ 256 ^ length bs = ap (◌^◌ 256) (length-reverse bs) in
    omega (arith, fold_big-bound 0 (reverse bs) (AreOctets-reverse bs h), e)
