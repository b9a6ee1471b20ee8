-- ===== src/Base/Bits.antt =====
-- The binary digits of a word: what `bit_and` and `bit_or` do to one of them.
use Prim.Native.Nat.{
  ℕ, zero, suc, ◌+◌, ◌-◌, ◌*◌, ◌/◌, ◌%◌, ◌^◌, ◌≤◌, ◌<◌, min, max, bit_and, bit_or, digits,
  bit_and-bitwise, bit_or-bitwise,
}
use mathlib.Core.Path.{◌≡◌, refl, sym, ap, ◌∙◌}
use mathlib.Core.Logic.{◌≢◌, inl, inr}
use mathlib.Core.Bool.{Bool, true, false, not}
use native.Mathlib.Omega.{arith}
use argus_ips.Base.Tests.{◌==◌, decide_eq}

-- Digit k of a word, lowest first.
abbrev pub digit : ℕ → ℕ → ℕ
digit a zero = a % 2
digit a (suc k) = digit (a / 2) k

-- `a & (1 << k) != 0`
abbrev pub has_bit : ℕ → ℕ → Bool
has_bit a k = not (bit_and a (2 ^ k) == 0)

digit-le_one : (k a : ℕ) → digit a k ≤ 1
digit-le_one zero a = omega arith
digit-le_one (suc k) a = digit-le_one k (a / 2)

-- A count of digits that is enough can be counted down to any other that is.
module _ (rest : ℕ → ℕ) (pair : ℕ → ℕ → ℕ) where
  one_more :
      (count x y : ℕ) → x ≤ count → digits rest pair (suc count) x y ≡ digits rest pair count x y
  one_more (suc count) (suc x) y h =
      ap (λ d. d * 2 + pair (suc x % 2) (y % 2)) (one_more count (suc x / 2) (y / 2) (omega arith))
  one_more zero (suc x) y h = absurd (omega arith)
  one_more (suc count) zero y h = refl
  one_more zero zero y h = refl

  spare :
      (count least x y : ℕ)
      → x ≤ least
      → least ≤ count
      → digits rest pair count x y ≡ digits rest pair least x y
  spare zero least x y h k = let e : 0 ≡ least = omega arith in ap (λ c. digits rest pair c x y) e
  spare (suc count) least x y h k = elim (decide_eq (suc count) least) [
    | inl e ↦ ap (λ c. digits rest pair c x y) e
    | inr ne ↦ one_more count x y (omega arith) ∙ spare count least x y h (omega arith)
  ]

  -- The lowest digit, and the numbers without it.
  lowest :
      (x y : ℕ)
      → digits rest pair (suc x) (suc x) y
        ≡ digits rest pair (suc x / 2) (suc x / 2) (y / 2) * 2 + pair (suc x % 2) (y % 2)
  lowest x y =
      ap (λ d. d * 2 + pair (suc x % 2) (y % 2))
        (spare x (suc x / 2) (suc x / 2) (y / 2) (omega arith) (omega arith))

pub and_zero_left : (b : ℕ) → bit_and 0 b ≡ 0
and_zero_left b = bit_and-bitwise 0 b

or_zero_left : (b : ℕ) → bit_or 0 b ≡ b
or_zero_left b = bit_or-bitwise 0 b

-- Both operations, one digit at a time.
pub bit_or_step : (a b : ℕ) → bit_or a b ≡ bit_or (a / 2) (b / 2) * 2 + max (a % 2) (b % 2)
bit_or_step (suc x) b =
    let whole : bit_or (suc x) b ≡ digits (λ y. y) max (suc x) (suc x) b =
      bit_or-bitwise (suc x) b in
    let half : bit_or (suc x / 2) (b / 2) ≡ digits (λ y. y) max (suc x / 2) (suc x / 2) (b / 2) =
      bit_or-bitwise (suc x / 2) (b / 2) in
    omega (arith, whole, half, lowest (λ y. y) max x b)
bit_or_step zero b = omega (arith, or_zero_left b, or_zero_left (b / 2))

pub bit_and_step : (a b : ℕ) → bit_and a b ≡ bit_and (a / 2) (b / 2) * 2 + min (a % 2) (b % 2)
bit_and_step (suc x) b =
    let whole : bit_and (suc x) b ≡ digits (λ y. 0) min (suc x) (suc x) b =
      bit_and-bitwise (suc x) b in
    let half : bit_and (suc x / 2) (b / 2) ≡ digits (λ y. 0) min (suc x / 2) (suc x / 2) (b / 2) =
      bit_and-bitwise (suc x / 2) (b / 2) in
    omega (arith, whole, half, lowest (λ y. 0) min x b)
bit_and_step zero b = omega (arith, and_zero_left b, and_zero_left (b / 2))

pub digit-bit_and : (k a b : ℕ) → digit (bit_and a b) k ≡ min (digit a k) (digit b k)
digit-bit_and zero a b = omega (arith, bit_and_step a b)
digit-bit_and (suc k) a b =
    let e : bit_and a b / 2 ≡ bit_and (a / 2) (b / 2) = omega (arith, bit_and_step a b) in
    ap (λ w. digit w k) e ∙ digit-bit_and k (a / 2) (b / 2)

pub digit-bit_or : (k a b : ℕ) → digit (bit_or a b) k ≡ max (digit a k) (digit b k)
digit-bit_or zero a b = omega (arith, bit_or_step a b)
digit-bit_or (suc k) a b =
    let e : bit_or a b / 2 ≡ bit_or (a / 2) (b / 2) = omega (arith, bit_or_step a b) in
    ap (λ w. digit w k) e ∙ digit-bit_or k (a / 2) (b / 2)

none_right : (count x : ℕ) → digits (λ y. 0) min count x 0 ≡ 0
none_right zero x = refl
none_right (suc count) zero = refl
none_right (suc count) (suc x) = omega (arith, none_right count (suc x / 2))

pub and_zero : (a : ℕ) → bit_and a 0 ≡ 0
and_zero a =
    let whole : bit_and a 0 ≡ digits (λ y. 0) min a a 0 = bit_and-bitwise a 0 in
    omega (arith, whole, none_right a a)

times_double : (x y d p : ℕ) → x ≡ y * 2 → y ≡ d * p → x ≡ d * (p * 2)
times_double x y d p h k = omega (arith, h, k)

-- The bit that `1 << k` picks is digit k in its place.
and_power : (k a : ℕ) → bit_and a (2 ^ k) ≡ digit a k * 2 ^ k
and_power zero a = omega (arith, bit_and_step a 1, and_zero (a / 2))
and_power (suc k) a =
    let h : 2 ^ suc k ≡ 2 ^ k * 2 = omega arith in
    let e : 2 ^ suc k / 2 ≡ 2 ^ k = omega arith in
    let f : bit_and (a / 2) (2 ^ suc k / 2) ≡ bit_and (a / 2) (2 ^ k) = ap (bit_and (a / 2)) e in
    let g : bit_and a (2 ^ suc k) ≡ bit_and (a / 2) (2 ^ k) * 2 =
      omega (arith, bit_and_step a (2 ^ suc k), f) in
    times_double (bit_and a (2 ^ suc k)) (bit_and (a / 2) (2 ^ k)) (digit (a / 2) k) (2 ^ k) g
      (and_power k (a / 2))
    ∙ ap (◌*◌ (digit (a / 2) k)) (sym h)

pub power_pos : (k : ℕ) → 1 ≤ 2 ^ k
power_pos zero = omega arith
power_pos (suc k) = omega (arith, power_pos k)

times_power_zero : (d p : ℕ) → d ≤ 1 → 1 ≤ p → (d * p == 0) ≡ (d == 0)
times_power_zero zero p h q = ground arith
times_power_zero (suc zero) p h q = ground arith
times_power_zero (suc (suc d)) p h q = absurd (omega arith)

pub has_bit-digit : (a k : ℕ) → has_bit a k ≡ not (digit a k == 0)
has_bit-digit a k =
    ap (λ n. not (n == 0)) (and_power k a)
    ∙ ap not (times_power_zero (digit a k) (2 ^ k) (digit-le_one k a) (power_pos k))

-- Setting bit b, and clearing it with the complement of `1 << b` in a 64-bit word.
digit-power_self : (k : ℕ) → digit (2 ^ k) k ≡ 1
digit-power_self zero = refl
digit-power_self (suc k) =
    let e : 2 ^ suc k / 2 ≡ 2 ^ k = omega arith in ap (λ w. digit w k) e ∙ digit-power_self k

digit-of_zero : (k : ℕ) → digit 0 k ≡ 0
digit-of_zero zero = refl
digit-of_zero (suc k) = digit-of_zero k

digit-power_ne : (k j : ℕ) → k ≢ j → digit (2 ^ k) j ≡ 0
digit-power_ne zero zero h = absurd (h refl)
digit-power_ne zero (suc j) h = digit-of_zero j
digit-power_ne (suc k) zero h = let e : 2 ^ suc k ≡ 2 ^ k * 2 = omega arith in omega (arith, e)
digit-power_ne (suc k) (suc j) h =
    let e : 2 ^ suc k / 2 ≡ 2 ^ k = omega arith in
    ap (λ w. digit w j) e ∙ digit-power_ne k j (λ q. h (ap suc q))

-- Digits of all ones, less a power of two that is among them.
digit-complement_self : (n k m : ℕ) → k < n → m + 2 ^ k + 1 ≡ 2 ^ n → digit m k ≡ 0
digit-complement_self zero k m h e = absurd (omega arith)
digit-complement_self (suc n) zero m h e =
    let d : 2 ^ suc n ≡ 2 ^ n * 2 = omega arith in omega (arith, d, e)
digit-complement_self (suc n) (suc k) m h e =
    let d : 2 ^ suc n ≡ 2 ^ n * 2 = omega arith in
    let f : 2 ^ suc k ≡ 2 ^ k * 2 = omega arith in
    digit-complement_self n k (m / 2) (omega arith) (omega (arith, d, e, f))

digit-ones : (n j m : ℕ) → j < n → m + 1 ≡ 2 ^ n → digit m j ≡ 1
digit-ones zero j m h e = absurd (omega arith)
digit-ones (suc n) zero m h e = let d : 2 ^ suc n ≡ 2 ^ n * 2 = omega arith in omega (arith, d, e)
digit-ones (suc n) (suc j) m h e =
    let d : 2 ^ suc n ≡ 2 ^ n * 2 = omega arith in
    digit-ones n j (m / 2) (omega arith) (omega (arith, d, e))

digit-complement_ne : (n k j m : ℕ) → j < n → k ≢ j → m + 2 ^ k + 1 ≡ 2 ^ n → digit m j ≡ 1
digit-complement_ne zero k j m h ne e = absurd (omega arith)
digit-complement_ne (suc n) zero zero m h ne e = absurd (ne refl)
digit-complement_ne (suc n) zero (suc j) m h ne e =
    let d : 2 ^ suc n ≡ 2 ^ n * 2 = omega arith in
    digit-ones n j (m / 2) (omega arith) (omega (arith, d, e))
digit-complement_ne (suc n) (suc k) zero m h ne e =
    let d : 2 ^ suc n ≡ 2 ^ n * 2 = omega arith in
    let f : 2 ^ suc k ≡ 2 ^ k * 2 = omega arith in omega (arith, d, e, f)
digit-complement_ne (suc n) (suc k) (suc j) m h ne e =
    let d : 2 ^ suc n ≡ 2 ^ n * 2 = omega arith in
    let f : 2 ^ suc k ≡ 2 ^ k * 2 = omega arith in
    digit-complement_ne n k j (m / 2) (omega arith) (λ q. ne (ap suc q)) (omega (arith, d, e, f))

pub power_lt : (b n : ℕ) → b < n → 2 ^ b + 1 ≤ 2 ^ n
power_lt b zero h = absurd (omega arith)
power_lt zero (suc n) h = omega (arith, power_pos n)
power_lt (suc b) (suc n) h = omega (arith, power_lt b n)

has_bit-eq : (u w c : ℕ) → digit u c ≡ digit w c → has_bit u c ≡ has_bit w c
has_bit-eq u w c e = has_bit-digit u c ∙ ap (λ d. not (d == 0)) e ∙ sym (has_bit-digit w c)

has_bit-const : (u c d : ℕ) → digit u c ≡ d → has_bit u c ≡ not (d == 0)
has_bit-const u c d e = has_bit-digit u c ∙ ap (λ d. not (d == 0)) e

-- `w | (1 << b)`
pub has_bit-set_self : (w b : ℕ) → has_bit (bit_or w (2 ^ b)) b ≡ true
has_bit-set_self w b =
    has_bit-const (bit_or w (2 ^ b)) b 1
      (omega (arith, digit-bit_or b w (2 ^ b), digit-power_self b, digit-le_one b w))

pub has_bit-set_ne : (w b c : ℕ) → b ≢ c → has_bit (bit_or w (2 ^ b)) c ≡ has_bit w c
has_bit-set_ne w b c h =
    has_bit-eq (bit_or w (2 ^ b)) w c
      (omega (arith, digit-bit_or c w (2 ^ b), digit-power_ne b c h))

-- `w & !(1 << b)` where the complement is taken in a word of n digits.
pub has_bit-clear_self : (n w b : ℕ) → b < n → has_bit (bit_and w (2 ^ n - 1 - 2 ^ b)) b ≡ false
has_bit-clear_self n w b h =
    let e : digit (2 ^ n - 1 - 2 ^ b) b ≡ 0 =
      digit-complement_self n b (2 ^ n - 1 - 2 ^ b) h (omega (arith, power_lt b n h)) in
    has_bit-const (bit_and w (2 ^ n - 1 - 2 ^ b)) b 0
      (omega (arith, digit-bit_and b w (2 ^ n - 1 - 2 ^ b), e))

pub has_bit-clear_ne :
    (n w b c : ℕ) → b < n → c < n → b ≢ c → has_bit (bit_and w (2 ^ n - 1 - 2 ^ b)) c ≡ has_bit w c
has_bit-clear_ne n w b c h k ne =
    let e : digit (2 ^ n - 1 - 2 ^ b) c ≡ 1 =
      digit-complement_ne n b c (2 ^ n - 1 - 2 ^ b) k ne (omega (arith, power_lt b n h)) in
    has_bit-eq (bit_and w (2 ^ n - 1 - 2 ^ b)) w c
      (omega (arith, digit-bit_and c w (2 ^ n - 1 - 2 ^ b), e, digit-le_one c w))

pub has_bit-zero : (a : ℕ) → has_bit a 0 ≡ not (a % 2 == 0)
has_bit-zero a = has_bit-digit a 0

pub has_bit-suc : (a k : ℕ) → has_bit a (suc k) ≡ has_bit (a / 2) k
has_bit-suc a k = has_bit-digit a (suc k) ∙ sym (has_bit-digit (a / 2) k)
