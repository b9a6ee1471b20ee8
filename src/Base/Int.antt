-- ===== src/Base/Int.antt =====
-- Signed integers over the native numbers, under the library's names, and the `i64` of the code:
-- the range that `checked_` and `saturating_` operations keep, and the casts between words.
use Prim.Native.Nat.{ℕ, zero, suc, ◌+◌, ◌-◌, ◌*◌, ◌/◌, ◌%◌, ◌^◌, min}
use mathlib.Core.Option.{Option, none, some}
use argus_ips.Base.Tests.{ltb, leb, if◌then◌else◌}

-- `negsuc n` is -(n + 1).
pub data ℤ : Type 0 where
  pos : ℕ → ℤ
  negsuc : ℕ → ℤ

abbrev pub pos_part : ℤ → ℕ
pos_part (pos n) = n
pos_part (negsuc n) = 0

abbrev pub neg_part : ℤ → ℕ
neg_part (pos n) = 0
neg_part (negsuc n) = suc n

-- a - b, as an integer.
abbrev pub sub_ℕ : ℕ → ℕ → ℤ
sub_ℕ a b = if leb b a then pos (a - b) else negsuc (b - a - 1)

infixl 65 ◌+ℤ◌ ◌-ℤ◌
infixl 70 ◌*ℤ◌
abbrev pub ◌+ℤ◌ : ℤ → ℤ → ℤ
a +ℤ b = sub_ℕ (pos_part a + pos_part b) (neg_part a + neg_part b)

abbrev pub ◌-ℤ◌ : ℤ → ℤ → ℤ
a -ℤ b = sub_ℕ (pos_part a + neg_part b) (neg_part a + pos_part b)

abbrev pub ◌*ℤ◌ : ℤ → ℤ → ℤ
a *ℤ b =
    sub_ℕ (pos_part a * pos_part b + neg_part a * neg_part b)
      (pos_part a * neg_part b + neg_part a * pos_part b)

-- The size of the positive half of an `i64`, and of a `u64`.
abbrev pub half_range : ℕ
half_range = 9_223_372_036_854_775_808

abbrev pub u64_range : ℕ
u64_range = 18_446_744_073_709_551_616

-- `Some` of a result that an `i64` holds, as a `checked_` operation gives it.
abbrev pub checked_i64 : ℤ → Option ℤ
checked_i64 (pos n) = if ltb n half_range then some (pos n) else none
checked_i64 (negsuc n) = if ltb n half_range then some (negsuc n) else none

-- The same of a `u64` or a `usize`.
abbrev pub checked_u64 : ℕ → Option ℕ
checked_u64 n = if ltb n u64_range then some n else none

abbrev pub saturate_i64 : ℤ → ℤ
saturate_i64 (pos n) = pos (min n (half_range - 1))
saturate_i64 (negsuc n) = negsuc (min n (half_range - 1))

abbrev pub saturating_add : ℕ → ℕ → ℕ
saturating_add a b = min (a + b) (u64_range - 1)

-- `n as i64` of a `u64`, and back.
abbrev pub as_i64 : ℕ → ℤ
as_i64 n = if ltb n half_range then pos n else negsuc (u64_range - 1 - n)

abbrev pub as_u64 : ℤ → ℕ
as_u64 (pos n) = n
as_u64 (negsuc n) = u64_range - 1 - n

-- `i64::try_from` of a `u64`.
abbrev pub i64_try_from : ℕ → Option ℤ
i64_try_from n = if ltb n half_range then some (pos n) else none

-- `checked_div`, which rounds toward zero and refuses a zero divisor.
abbrev pub checked_div : ℤ → ℤ → Option ℤ
checked_div a (pos zero) = none
checked_div (pos n) (pos (suc m)) = some (pos (n / suc m))
checked_div (negsuc n) (pos (suc m)) = checked_i64 (sub_ℕ 0 (suc n / suc m))
checked_div (pos n) (negsuc m) = checked_i64 (sub_ℕ 0 (n / suc m))
checked_div (negsuc n) (negsuc m) = checked_i64 (pos (suc n / suc m))

-- `u32::try_from` of the amount, then `checked_shl` and `checked_shr`, which refuse 64 and more.
abbrev pub checked_shl : ℤ → ℤ → Option ℤ
checked_shl a (negsuc k) = none
checked_shl a (pos k) = if ltb k 64 then some (as_i64 (as_u64 a * 2 ^ k % u64_range)) else none

abbrev pub shr : ℤ → ℕ → ℤ
shr (pos n) k = pos (n / 2 ^ k)
shr (negsuc n) k = negsuc (n / 2 ^ k)

abbrev pub checked_shr : ℤ → ℤ → Option ℤ
checked_shr a (negsuc k) = none
checked_shr a (pos k) = if ltb k 64 then some (shr a k) else none
