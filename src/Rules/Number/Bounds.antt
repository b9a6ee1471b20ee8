-- ===== src/Rules/Number/Bounds.antt =====
-- The numbers that `NumberFormat::read` of src/rules.rs gives, where it stops reading, and when it
-- panics.
use argus_ips.Address.{Bytes}
use argus_ips.Base.{
  Outcome, panics, misses, gives, ◌>>!◌, of_option, of_option-eq_gives, Given, Given-bind, Given-if,
  Bool, true, ◌%◌, if_true, if_false, lt→ltb, Bool-cases, inl, inr, ◌↔◌, sym, not_ltb, not_leb, ℕ,
  ◌+◌, ◌-◌, ◌^◌, ◌<◌, ◌≤◌, min, u64_range, checked_u64, false, ◌||◌, Option, none, some, length,
  drop, slice, length-take, length-drop, ltb, ltb→lt, leb, ◌==◌, if◌then◌else◌, Holds-elim, ◌≡◌,
  refl, ap, ◌∙◌, arith,
}
use argus_ips.Rules.Address.Prefix.{AreOctets}
use argus_ips.Rules.Number.{
  NumberFormat, Endian, binary, text, read_binary, read_digits, read_number,
}
use argus_ips.Rules.Number.Digits.{
  IsUsed, AreOctets-take, AreOctets-drop, power_bound, read_digits-IsUsed, read_binary-bound,
}

-- What a reading from `at` may give: it stops past `at`, and its number fits a `u64`.
abbrev pub IsRead : ℕ → ℕ → ℕ × ℕ → Type 0
IsRead at stop r = (at < r.1) × (r.1 ≤ stop) × (r.0 < u64_range)

checked_u64-eq : (n m : ℕ) → checked_u64 n ≡ some m → m ≡ n
checked_u64-eq n m h = ground (arith, h)

sizes : (n : ℕ) → (n == 0 || ltb 8 n) ≡ false → (1 ≤ n) × (n ≤ 8)
sizes n h = ground (arith, h)

slice-IsRead :
    (endian : Endian) (bs : Bytes) (at bytes stop : ℕ)
    → AreOctets bs
    → (1 ≤ bytes) × (bytes ≤ 8)
    → stop ≡ at + bytes
    → stop ≤ length bs
    → IsRead at (min (at + bytes) (length bs)) (read_binary endian (slice bs at stop), stop)
slice-IsRead endian bs at bytes stop h k e l =
    let w : Bytes = slice bs at stop in
    let n : length w ≡ bytes =
      omega (arith, length-take (stop - at) (drop at bs), length-drop at bs, e, l) in
    (
      omega (arith, k.0, e),
      omega (arith, e, l),
      omega (
        arith,
        read_binary-bound endian w
            (AreOctets-take (stop - at) (drop at bs) (AreOctets-drop at bs h)),
        ap (◌^◌ 256) n,
        power_bound bytes k.1,
      ),
    )

Given-else {ℓ} :
    {A : Type ℓ} (P : A → Type 0) (b : Bool) (o : Outcome A)
    → (b ≡ false → Given P o)
    → Given P (if b then misses else o)
Given-else P true o h = _
Given-else P false o h = h refl

Given-guard {ℓ} :
    {A : Type ℓ} (P : A → Type 0) (b : Bool) (o : Outcome A)
    → (b ≡ false → Given P o)
    → Given P (if b then panics else o)
Given-guard P true o h = _
Given-guard P false o h = h refl

read_number-Given :
    (format : NumberFormat) (bs : Bytes) (at bytes : ℕ)
    → AreOctets bs
    → Given (IsRead at (min (at + bytes) (length bs))) (read_number format bs at bytes)
read_number-Given (binary endian) bs at bytes h =
    let P = IsRead at (min (at + bytes) (length bs)) in
    Given-else P (bytes == 0 || ltb 8 bytes) _ (λ t.
      Given-bind P (of_option (checked_u64 (at + bytes)))
        (λ stop.
          if ltb (length bs) stop
          then misses
          else gives (read_binary endian (slice bs at stop), stop))
        (λ stop q.
          Given-else P (ltb (length bs) stop) (gives (read_binary endian (slice bs at stop), stop))
            (λ u.
              slice-IsRead endian bs at bytes stop h (sizes bytes t)
                (checked_u64-eq (at + bytes) stop (of_option-eq_gives (checked_u64 (at + bytes)) q))
                (not_ltb (length bs) stop u))))
read_number-Given (text radix) bs at bytes h =
    let P = IsRead at (min (at + bytes) (length bs)) in
    let end : ℕ = min ((at + bytes) % u64_range) (length bs) in
    let w : Bytes = slice bs at end in
    Given-else P (leb (length bs) at) _ (λ t. Given-guard P (ltb end at) _ (λ g.
      Given-bind P (of_option (read_digits radix w 0 at))
        (λ r. if ltb at r.1 then gives r else misses)
        (λ r q.
          let u =
            Holds-elim (IsUsed at end) (read_digits radix w 0 at) r
              (read_digits-IsUsed radix w 0 at end (omega arith)
                (omega (arith, length-take (end - at) (drop at bs), not_ltb end at g)))
              (of_option-eq_gives (read_digits radix w 0 at) q) in
          Given-if P (ltb at r.1) r (λ v. (ltb→lt at r.1 v, omega (arith, u.1), u.2)))))

abbrev pub is_text : NumberFormat → Bool
is_text (binary endian) = false
is_text (text radix) = true

-- The end of a text that starts inside the buffer does not fit a `usize`.
abbrev pub Overflows : NumberFormat → ℕ → ℕ → ℕ → Type 0
Overflows format len at bytes = (is_text format ≡ true) × (at < len) × (u64_range ≤ at + bytes)

-- What follows the checks does not panic.
no_panic {ℓ} :
    {A B : Type ℓ} (o : Option A) (c : A → Bool) (f : A → B)
    → (of_option o >>! λ a. if c a then misses else gives (f a)) ≡ panics
    → ⊥
no_panic none c f h = cc
no_panic (some a) c f h = elim (Bool-cases (c a)) [
  | inl t ↦ let z : misses ≡ panics = sym (if_true _ _ t) ∙ h in cc
  | inr t ↦ let z : gives (f a) ≡ panics = sym (if_false _ _ t) ∙ h in cc
]

no_late_panic :
    (at : ℕ) (o : Option (ℕ × ℕ))
    → (of_option o >>! λ r. if ltb at r.1 then gives r else misses) ≡ panics
    → ⊥
no_late_panic at none h = cc
no_late_panic at (some r) h = elim (Bool-cases (ltb at r.1)) [
  | inl t ↦ let z : gives r ≡ panics = sym (if_true _ _ t) ∙ h in cc
  | inr t ↦ let z : misses ≡ panics = sym (if_false _ _ t) ∙ h in cc
]

panics-Overflows :
    (format : NumberFormat) (bs : Bytes) (at bytes : ℕ)
    → read_number format bs at bytes ≡ panics
    → Overflows format (length bs) at bytes
panics-Overflows (binary endian) bs at bytes h = elim (Bool-cases (bytes == 0 || ltb 8 bytes)) [
  | inl t ↦ let z : misses ≡ panics = sym (if_true _ _ t) ∙ h in absurd (cc)
  | inr t ↦ absurd (
      no_panic (checked_u64 (at + bytes)) (λ end. ltb (length bs) end)
        (λ end. (read_binary endian (slice bs at end), end)) (sym (if_false _ _ t) ∙ h))
]
panics-Overflows (text radix) bs at bytes h =
    let end : ℕ = min ((at + bytes) % u64_range) (length bs) in
    elim (Bool-cases (leb (length bs) at)) [
      | inl t ↦ let z : misses ≡ panics = sym (if_true _ _ t) ∙ h in absurd (cc)
      | inr t ↦ elim (Bool-cases (ltb end at)) [
        | inl g ↦ (
          refl,
          not_leb (length bs) at t,
          omega (arith, ltb→lt end at g, not_leb (length bs) at t),
        )
        | inr g ↦ absurd (
            no_late_panic at (read_digits radix (slice bs at end) 0 at)
              (sym (if_false _ _ g) ∙ sym (if_false _ _ t) ∙ h))
      ]
    ]

leb-false : (a b : ℕ) → b < a → leb a b ≡ false
leb-false a b h = ground (arith, h)

Overflows-panics :
    (format : NumberFormat) (bs : Bytes) (at bytes : ℕ)
    → length bs < u64_range
    → bytes < u64_range
    → Overflows format (length bs) at bytes
    → read_number format bs at bytes ≡ panics
Overflows-panics (binary endian) bs at bytes l b h = absurd (cc (h.0))
Overflows-panics (text radix) bs at bytes l b h =
    let end : ℕ = min ((at + bytes) % u64_range) (length bs) in
    if_false _ _ (leb-false (length bs) at h.1)
    ∙ if_true _ _ (lt→ltb end at (omega (arith, h.1, h.2, l, b)))

-- In a buffer of octets, where its length and the count of bytes each fit a `usize`: a number that
-- is read from `at` fits a `u64`, and the reading stops past `at`, inside the buffer, and within the
-- given count of bytes. The reading panics if and only if the format is text, `at` is inside the
-- buffer, and `at` plus the count does not fit a `usize`.
pub read_number_lem :
    (format : NumberFormat) (bs : Bytes) (at bytes : ℕ)
    → AreOctets bs
    → length bs < u64_range
    → bytes < u64_range
    → Given (IsRead at (min (at + bytes) (length bs))) (read_number format bs at bytes)
      × ((read_number format bs at bytes ≡ panics) ↔ Overflows format (length bs) at bytes)
read_number_lem format bs at bytes h l b = (
  read_number-Given format bs at bytes h,
  (panics-Overflows format bs at bytes, Overflows-panics format bs at bytes l b),
)
