-- ===== src/Window/RateWindow/Slots.antt =====
-- A history of amounts, and its split over the buckets of the ring.
use argus_ips.Base.{
  ℕ, zero, suc, ◌+◌, ◌%◌, ◌<◌, ◌≤◌, List, [], ◌∷◌, ◌≡◌, refl, ltb, ◌==◌, if◌then◌else◌, arith,
}

abbrev pub newest : List (ℕ × ℕ) → ℕ
newest [] = 0
newest ((t, a) ∷ h) = t

abbrev pub IsOrdered : List (ℕ × ℕ) → Type 0
IsOrdered [] = Unit
IsOrdered ((t, a) ∷ h) = (newest h ≤ t) × IsOrdered h

-- What was added in the last `n` seconds: the specification.
abbrev pub amount_within : ℕ → ℕ → List (ℕ × ℕ) → ℕ
amount_within n now [] = 0
amount_within n now ((t, a) ∷ h) = (if ltb now (t + n) then a else 0) + amount_within n now h

-- The part of that amount that falls into bucket `i`.
abbrev pub slot_amount : ℕ → ℕ → ℕ → List (ℕ × ℕ) → ℕ
slot_amount n i now [] = 0
slot_amount n i now ((t, a) ∷ h) =
    (if t % n == i then (if ltb now (t + n) then a else 0) else 0) + slot_amount n i now h

unfoldable pub slots_from : ℕ → ℕ → ℕ → ℕ → List (ℕ × ℕ) → ℕ
slots_from n i zero now h = 0
slots_from n i (suc c) now h = slot_amount n i now h + slots_from n (suc i) c now h

-- The amounts of the buckets add up to the whole.
one_slot : ℕ → ℕ → ℕ → ℕ → ℕ
one_slot r v i zero = 0
one_slot r v i (suc c) = (if r == i then v else 0) + one_slot r v (suc i) c

one_slot_past : (r v i c : ℕ) → r < i → one_slot r v i c ≡ 0
unfolding one_slot
one_slot_past r v i zero h = refl
one_slot_past r v i (suc c) h = ground (arith, one_slot_past r v (suc i) c)

one_slot_lem : (r v i c : ℕ) → i ≤ r → r < i + c → one_slot r v i c ≡ v
unfolding one_slot
one_slot_lem r v i zero lo hi = absurd (omega arith)
one_slot_lem r v i (suc c) lo hi =
    ground (arith, one_slot_past r v (suc i) c, one_slot_lem r v (suc i) c)

slots_from-cons :
    (n i c now t a : ℕ) (h : List (ℕ × ℕ))
    → slots_from n i c now ((t, a) ∷ h)
      ≡ one_slot (t % n) (if ltb now (t + n) then a else 0) i c + slots_from n i c now h
unfolding slots_from one_slot
slots_from-cons n i zero now t a h = omega arith
slots_from-cons n i (suc c) now t a h = omega (arith, slots_from-cons n (suc i) c now t a h)

slots_from-nil : (n i c now : ℕ) → slots_from n i c now [] ≡ 0
unfolding slots_from
slots_from-nil n i zero now = refl
slots_from-nil n i (suc c) now = omega (arith, slots_from-nil n (suc i) c now)

pub slots_from-amount_within :
    (n now : ℕ) (h : List (ℕ × ℕ)) → 0 < n → slots_from n 0 n now h ≡ amount_within n now h
slots_from-amount_within n now [] pos = slots_from-nil n 0 n now
slots_from-amount_within n now ((t, a) ∷ h) pos = omega (
  arith,
  slots_from-cons n 0 n now t a h,
  one_slot_lem (t % n) (if ltb now (t + n) then a else 0) 0 n (omega arith) (omega arith),
  slots_from-amount_within n now h pos,
)

-- Two different times of one bucket are a whole lap apart.
pub lap : (n s t : ℕ) → 0 < n → s % n ≡ t % n → s < t → s + n ≤ t
lap n s t pos e h = grind arith
