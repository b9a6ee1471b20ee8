-- ===== src/Rules/Number.antt =====
-- Numbers in a buffer (src/rules.rs): `NumberFormat`, and the terms `byte_test`, `byte_jump`,
-- `byte_extract`, `byte_math` and `isdataat` that read them.
pub mod Digits
pub mod Bounds
use argus_ips.Address.{Bytes}
use argus_ips.Base.{
  Outcome, panics, misses, gives, ◌>>!◌, of_option, ℕ, zero, suc, ◌+◌, ◌-◌, ◌*◌, ◌/◌, ◌%◌, ◌≤◌, min,
  bit_and, u64_range, ℤ, pos, pos_part, ◌+ℤ◌, ◌-ℤ◌, ◌*ℤ◌, as_i64, as_u64, i64_try_from, checked_i64,
  checked_u64, checked_div, checked_shl, checked_shr, saturating_add, Bool, true, false, not, ◌&&◌,
  ◌||◌, List, [], ◌∷◌, ◌++◌, Option, none, some, ◌>>=◌, length, set, slice, ltb, leb, ◌==◌, bool_eq,
  if◌then◌else◌,
}
use argus_ips.Rules.Vars.{Vars, resolve, shift}

pub data ByteOp : Type 0 where
  less greater equal not_equal less_equal greater_equal all_bits any_bit : ByteOp

abbrev pub op_eval : ByteOp → ℕ → ℕ → Bool
op_eval less read value = ltb read value
op_eval greater read value = ltb value read
op_eval equal read value = read == value
op_eval not_equal read value = not (read == value)
op_eval less_equal read value = leb read value
op_eval greater_equal read value = leb value read
op_eval all_bits read value = bit_and read value == value
op_eval any_bit read value = not (bit_and read value == 0)

pub data Endian : Type 0 where
  big little : Endian

pub data NumberFormat : Type 0 where
  binary : Endian → NumberFormat
  text : ℕ → NumberFormat

-- `v = (v << 8) | b` for each byte; the octets have their own places, so the `|` is a sum.
abbrev pub fold_big : ℕ → Bytes → ℕ
fold_big v [] = v
fold_big v (b ∷ bs) = fold_big (v * 256 + b) bs

abbrev pub reverse : Bytes → Bytes
reverse [] = []
reverse (b ∷ bs) = reverse bs ++ (b ∷ [])

abbrev pub read_binary : Endian → Bytes → ℕ
read_binary big bs = fold_big 0 bs
read_binary little bs = fold_big 0 (reverse bs)

-- `char::radix_digit` of an octet, for a radix up to 36.
abbrev pub digit_value : ℕ → Option ℕ
digit_value b =
    if leb 48 b && leb b 57
    then some (b - 48)
    else if leb 65 b && leb b 90
    then some (b - 55)
    else if leb 97 b && leb b 122
    then some (b - 87)
    else none

abbrev pub radix_digit : ℕ → ℕ → Option ℕ
radix_digit radix b = digit_value b >>= λ d. if ltb d radix then some d else none

-- The loop over the digits: the value so far and how many were used; `none` when a product or a sum
-- does not fit.
abbrev pub read_digits : ℕ → Bytes → ℕ → ℕ → Option (ℕ × ℕ)
read_digits radix [] v used = some (v, used)
read_digits radix (b ∷ bs) v used = elim (radix_digit radix b) [
  | none ↦ some (v, used)
  | some d ↦ checked_u64 (v * radix) >>= λ scaled.
      checked_u64 (scaled + d) >>= λ next. read_digits radix bs next (used + 1)
]

-- `NumberFormat::read`. The `at + bytes` of the text case is not checked and wraps in a release
-- build; the slice panics when its end comes before its start.
abbrev pub read_number : NumberFormat → Bytes → ℕ → ℕ → Outcome (ℕ × ℕ)
read_number (binary endian) bs at bytes =
    if bytes == 0 || ltb 8 bytes
    then misses
    else (of_option (checked_u64 (at + bytes)) >>! λ end.
        if ltb (length bs) end then misses else gives (read_binary endian (slice bs at end), end))
read_number (text radix) bs at bytes =
    let end = min ((at + bytes) % u64_range) (length bs) in
    if leb (length bs) at
    then misses
    else if ltb end at
    then panics
    else (of_option (read_digits radix (slice bs at end) 0 at) >>! λ r.
        if ltb at r.1 then gives r else misses)

-- The base of an offset.
abbrev pub base_of : Bool → ℕ → ℕ
base_of relative cursor = if relative then cursor else 0

pub record ByteTest : Type 0 where
  pub bytes : ℕ
  pub op : ByteOp
  pub value : ℕ
  pub value_var : Option ℕ
  pub offset : ℤ
  pub offset_var : Option ℕ
  pub relative : Bool
  pub format : NumberFormat
  pub negate : Bool

-- `hit` of `ByteTest::eval`.
abbrev pub test_hit : ByteTest → Bytes → ℕ → ℤ → Outcome Bool
test_hit t bs at value = elim (read_number t.format bs at t.bytes) [
  | panics ↦ panics
  | misses ↦ gives false
  | gives r ↦ gives (op_eval t.op r.0 (as_u64 value))
]

abbrev pub test_eval : ByteTest → Bytes → ℕ → Vars → Outcome Bool
test_eval t bs cursor vars = elim (resolve t.offset t.offset_var vars) [
  | none ↦ gives t.negate
  | some offset ↦ elim (resolve (as_i64 t.value) t.value_var vars) [
    | none ↦ gives t.negate
    | some value ↦ elim (shift (base_of t.relative cursor) offset) [
      | none ↦ gives t.negate
      | some at ↦ test_hit t bs at value >>! λ hit. gives (not (bool_eq hit t.negate))
    ]
  ]
]

pub record ByteJump : Type 0 where
  pub bytes : ℕ
  pub offset : ℤ
  pub relative : Bool
  pub format : NumberFormat
  pub multiplier : ℕ
  pub align : Bool
  pub post_offset : ℤ
  pub from_beginning : Bool

-- `target.div_ceil(4) * 4`, which wraps past the last multiple of four.
abbrev pub align_up : ℕ → ℕ
align_up n = (n + 3) / 4 * 4 % u64_range

-- Where the jump points.
abbrev pub jump_target : ByteJump → Bytes → ℕ → Outcome ℕ
jump_target j bs cursor = of_option (shift (base_of j.relative cursor) j.offset) >>! λ at.
    read_number j.format bs at j.bytes >>! λ r. of_option (
      checked_u64 (r.0 * j.multiplier) >>= λ jump.
      checked_u64 ((if j.from_beginning then 0 else r.1) + jump) >>= λ target.
      shift (if j.align then align_up target else target) j.post_offset)

-- `ByteJump::eval`
abbrev pub jump_eval : ByteJump → Bytes → ℕ → Outcome ℕ
jump_eval j bs cursor =
    jump_target j bs cursor >>! λ dest. if leb dest (length bs) then gives dest else misses

pub record ByteExtract : Type 0 where
  pub bytes : ℕ
  pub offset : ℤ
  pub relative : Bool
  pub format : NumberFormat
  pub multiplier : ℤ
  pub var : ℕ

abbrev pub extract_value : ByteExtract → Bytes → ℕ → Outcome ℤ
extract_value e bs cursor = of_option (shift (base_of e.relative cursor) e.offset) >>! λ at.
    read_number e.format bs at e.bytes >>! λ r.
    of_option (i64_try_from r.0 >>= λ v. checked_i64 (v *ℤ e.multiplier))

-- `ByteExtract::eval`: `misses` for false, and the variables that a true one leaves.
abbrev pub extract_eval : ByteExtract → Bytes → ℕ → Vars → Outcome Vars
extract_eval e bs cursor vars = extract_value e bs cursor >>! λ v. gives (set vars e.var (some v))

-- `oper` of `byte_math`; any other character gives no result.
pub data MathOp : Type 0 where
  plus minus times over shl shr unknown : MathOp

pub record ByteMath : Type 0 where
  pub bytes : ℕ
  pub offset : ℤ
  pub relative : Bool
  pub format : NumberFormat
  pub oper : MathOp
  pub rvalue : ℤ
  pub rvalue_var : Option ℕ
  pub var : ℕ

abbrev pub math_op : MathOp → ℤ → ℤ → Option ℤ
math_op plus lhs rhs = checked_i64 (lhs +ℤ rhs)
math_op minus lhs rhs = checked_i64 (lhs -ℤ rhs)
math_op times lhs rhs = checked_i64 (lhs *ℤ rhs)
math_op over lhs rhs = checked_div lhs rhs
math_op shl lhs rhs = checked_shl lhs rhs
math_op shr lhs rhs = checked_shr lhs rhs
math_op unknown lhs rhs = none

abbrev pub math_value : ByteMath → Bytes → ℕ → Vars → Outcome ℤ
math_value m bs cursor vars = of_option (shift (base_of m.relative cursor) m.offset) >>! λ at.
    read_number m.format bs at m.bytes >>! λ r. of_option (
      i64_try_from r.0 >>= λ lhs.
      resolve m.rvalue m.rvalue_var vars >>= λ rhs. math_op m.oper lhs rhs)

-- `ByteMath::eval`
abbrev pub math_eval : ByteMath → Bytes → ℕ → Vars → Outcome Vars
math_eval m bs cursor vars =
    math_value m bs cursor vars >>! λ out. gives (set vars m.var (some out))

pub record DataAt : Type 0 where
  pub offset : ℕ
  pub var : Option ℕ
  pub relative : Bool
  pub negate : Bool

-- `isdataat`
abbrev pub data_at_holds : DataAt → ℕ → ℕ → Vars → Bool
data_at_holds d len cursor vars = elim (resolve (as_i64 d.offset) d.var vars) [
  | none ↦ d.negate
  | some offset ↦
      not
        (bool_eq (ltb (saturating_add (base_of d.relative cursor) (pos_part offset)) len) d.negate)
]
