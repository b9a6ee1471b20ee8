-- ===== src/Rules/Search.antt =====
-- `find_subslice` and `find_nocase` of src/rules.rs: the search for a literal in a window.
pub mod First
pub mod NoCase
pub mod Bounds
use argus_ips.Address.{Bytes, bytes_eq}
use argus_ips.Base.{
  ℕ, zero, suc, ◌+◌, ◌-◌, Bool, true, false, ◌&&◌, ◌||◌, List, [], ◌∷◌, map, Option, none, some,
  length, take, drop, slice, get_or, ltb, leb, ◌==◌, if◌then◌else◌,
}

-- `position` over a slice's items, counted from i.
abbrev pub position {ℓ} : {A : Type ℓ} → (A → Bool) → List A → ℕ → Option ℕ
position p [] i = none
position p (x ∷ xs) i = let rest = position p xs (i + 1) in if p x then some i else rest

-- `windows(m)`
abbrev pub windows : ℕ → Bytes → List Bytes
windows m [] = []
windows m (b ∷ bs) =
    let rest = windows m bs in if leb m (length (b ∷ bs)) then take m (b ∷ bs) ∷ rest else []

abbrev pub find_subslice : Bytes → Bytes → Option ℕ
find_subslice haystack needle =
    if length needle == 0 || ltb (length haystack) (length needle)
    then none
    else position (λ w. bytes_eq w needle) (windows (length needle) haystack) 0

abbrev pub to_upper : ℕ → ℕ
to_upper b = if leb 97 b && leb b 122 then b - 32 else b

abbrev pub to_lower : ℕ → ℕ
to_lower b = if leb 65 b && leb b 90 then b + 32 else b

abbrev pub eq_ignore_case : Bytes → Bytes → Bool
eq_ignore_case a b = bytes_eq (map to_lower a) (map to_lower b)

-- The `memchr` crate, which finds the first of one or two bytes.
pub record Memchr : Type 0 where
  pub memchr : ℕ → Bytes → Option ℕ
  pub memchr2 : ℕ → ℕ → Bytes → Option ℕ

-- The next place in a window where the needle's first byte stands, in either case.
abbrev pub first_byte : Memchr → ℕ → Bytes → Option ℕ
first_byte c lower window =
    if lower == to_upper lower
    then c.memchr lower window
    else c.memchr2 lower (to_upper lower) window

-- The loop, with as many rounds as there are starts from `at` on.
abbrev pub nocase_loop : Memchr → Bytes → Bytes → ℕ → ℕ → ℕ → Option ℕ
nocase_loop c haystack needle last_start zero at = none
nocase_loop c haystack needle last_start (suc rounds) at =
    if ltb last_start at
    then none
    else elim (first_byte c (get_or needle 0 0) (slice haystack at (last_start + 1))) [
      | none ↦ none
      | some d ↦
          let rest = nocase_loop c haystack needle last_start rounds (at + d + 1) in
          if eq_ignore_case (slice haystack (at + d) (at + d + length needle)) needle
          then some (at + d)
          else rest
    ]

abbrev pub find_nocase : Memchr → Bytes → Bytes → Option ℕ
find_nocase c haystack needle =
    let last_start : ℕ = length haystack - length needle in
    if length needle == 0 || ltb (length haystack) (length needle)
    then none
    else nocase_loop c haystack needle last_start (last_start + 1) 0
