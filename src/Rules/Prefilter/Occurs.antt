-- ===== src/Rules/Prefilter/Occurs.antt =====
-- A content term of src/rules.rs that matches has its literal in the buffer.
use argus_ips.Address.{Bytes, bytes_eq, bytes_eq_iff}
use argus_ips.Base.{
  ℕ, zero, suc, ◌+◌, ◌-◌, ◌≤◌, Bool, true, [], ◌∷◌, map, Option, none, some, some_inj, length,
  get_or, take, drop, slice, ltb, if_true, if_false, if◌then◌else◌, ◌≡◌, refl, sym, ap, ◌∙◌, inl,
  inr, arith, Bool-cases,
}
use argus_ips.Rules.Search.{
  Memchr, find_subslice, find_nocase, nocase_loop, first_byte, eq_ignore_case, to_lower,
}
use argus_ips.Rules.Search.First.{first}
use argus_ips.Rules.Search.NoCase.{find_subslice-first, guard}

-- The literal stands in the bytes at i, without regard to case.
abbrev pub stands_at : Bytes → Bytes → ℕ → Bool
stands_at bs lit i = eq_ignore_case (take (length lit) (drop i bs)) lit

abbrev pub Occurs : Bytes → Bytes → Type 0
Occurs bs lit = (i : ℕ) × (stands_at bs lit i ≡ true)

first-passes : (p : ℕ → Bool) (count at i : ℕ) → first p count at ≡ some i → p i ≡ true
first-passes p zero at i h = absurd (cc)
first-passes p (suc count) at i h = elim (Bool-cases (p at)) [
  | inl e ↦ let q : at ≡ i = some_inj (sym (if_true _ _ e) ∙ h) in ap p (sym q) ∙ e
  | inr e ↦ first-passes p count (at + 1) i (sym (if_false _ _ e) ∙ h)
]

bytes_eq-ignore_case : (a b : Bytes) → bytes_eq a b ≡ true → eq_ignore_case a b ≡ true
bytes_eq-ignore_case a b h =
    (bytes_eq_iff (map to_lower a) (map to_lower b)).1 (ap (map to_lower) ((bytes_eq_iff a b).0 h))

pub find_subslice-stands_at :
    (bs lit : Bytes) (i : ℕ) → find_subslice bs lit ≡ some i → stands_at bs lit i ≡ true
find_subslice-stands_at bs [] i h = absurd (cc)
find_subslice-stands_at bs (l ∷ ns) i h = elim (Bool-cases (ltb (length bs) (length (l ∷ ns)))) [
  | inl t ↦
      let z : none ≡ some i = sym (if_true _ _ t) ∙ sym (find_subslice-first l ns bs) ∙ h in
      absurd (cc)
  | inr t ↦ bytes_eq-ignore_case (take (length (l ∷ ns)) (drop i bs)) (l ∷ ns) (
      first-passes (λ i. bytes_eq (take (length (l ∷ ns)) (drop i bs)) (l ∷ ns))
        (length bs + 1 - length (l ∷ ns)) 0 i
        (sym (if_false _ _ t) ∙ sym (find_subslice-first l ns bs) ∙ h))
]

slice-take : (bs : Bytes) (i m : ℕ) → slice bs i (i + m) ≡ take m (drop i bs)
slice-take bs i m = let e : i + m - i ≡ m = omega arith in ap (λ n. take n (drop i bs)) e

-- The loop returns only a place that it compared.
abbrev after : Memchr → Bytes → Bytes → ℕ → ℕ → ℕ → Option ℕ → Option ℕ
after c h lit last rounds at o = elim o [
  | none ↦ none
  | some d ↦
      let rest = nocase_loop c h lit last rounds (at + d + 1) in
      if eq_ignore_case (slice h (at + d) (at + d + length lit)) lit then some (at + d) else rest
]

after-stands_at :
    (c : Memchr) (h lit : Bytes) (last rounds at i : ℕ) (o : Option ℕ)
    → ((at' : ℕ) → nocase_loop c h lit last rounds at' ≡ some i → stands_at h lit i ≡ true)
    → after c h lit last rounds at o ≡ some i
    → stands_at h lit i ≡ true
after-stands_at c h lit last rounds at i none rec e = absurd (cc)
after-stands_at c h lit last rounds at i (some d) rec e =
    elim (Bool-cases (eq_ignore_case (slice h (at + d) (at + d + length lit)) lit)) [
      | inl t ↦
          let q : at + d ≡ i = some_inj (sym (if_true _ _ t) ∙ e) in
          ap (stands_at h lit) (sym q)
          ∙ ap (λ b. eq_ignore_case b lit) (sym (slice-take h (at + d) (length lit)))
          ∙ t
      | inr t ↦ rec (at + d + 1) (sym (if_false _ _ t) ∙ e)
    ]

loop-stands_at :
    (c : Memchr) (h lit : Bytes) (last rounds at i : ℕ)
    → nocase_loop c h lit last rounds at ≡ some i
    → stands_at h lit i ≡ true
loop-stands_at c h lit last zero at i e = absurd (cc)
loop-stands_at c h lit last (suc rounds) at i e = elim (Bool-cases (ltb last at)) [
  | inl t ↦ let z : none ≡ some i = sym (if_true _ _ t) ∙ e in absurd (cc)
  | inr t ↦
      after-stands_at c h lit last rounds at i
        (first_byte c (get_or lit 0 0) (slice h at (last + 1)))
        (λ at' f. loop-stands_at c h lit last rounds at' i f) (sym (if_false _ _ t) ∙ e)
]

pub find_nocase-stands_at :
    (c : Memchr) (h lit : Bytes) (i : ℕ) → find_nocase c h lit ≡ some i → stands_at h lit i ≡ true
find_nocase-stands_at c h [] i e = absurd (cc)
find_nocase-stands_at c h (l ∷ ns) i e = elim (Bool-cases (ltb (length h) (length (l ∷ ns)))) [
  | inl t ↦
      let z : none ≡ some i =
        sym (guard (length ns) (ltb (length h) (length (l ∷ ns))) _ _ ∙ if_true _ _ t) ∙ e in
      absurd (cc)
  | inr t ↦
      loop-stands_at c h (l ∷ ns) (length h - length (l ∷ ns)) (length h - length (l ∷ ns) + 1) 0 i
        (sym (guard (length ns) (ltb (length h) (length (l ∷ ns))) _ _ ∙ if_false _ _ t) ∙ e)
]

-- From a window to the buffer that it is cut from.
take-take : (m k : ℕ) (xs : Bytes) → m ≤ k → take m (take k xs) ≡ take m xs
take-take zero k xs h = refl
take-take (suc m) zero xs h = absurd (omega arith)
take-take (suc m) (suc k) [] h = refl
take-take (suc m) (suc k) (x ∷ xs) h = ap (◌∷◌ x) (take-take m k xs (omega arith))

pub take-drop-take :
    (m i k : ℕ) (xs : Bytes) → i + m ≤ k → take m (drop i (take k xs)) ≡ take m (drop i xs)
take-drop-take m zero k xs h = take-take m k xs (omega arith)
take-drop-take m (suc i) zero xs h = absurd (omega arith)
take-drop-take m (suc i) (suc k) [] h = refl
take-drop-take m (suc i) (suc k) (x ∷ xs) h = take-drop-take m i k xs (omega arith)

omega_left : (n : ℕ) → n ≡ 0 + n
omega_left n = omega arith

omega_right : (n : ℕ) → n ≡ n + 0
omega_right n = omega arith

pub drop-drop : (i a : ℕ) (xs : Bytes) → drop i (drop a xs) ≡ drop (a + i) xs
drop-drop i zero xs = ap (λ n. drop n xs) (omega_left i)
drop-drop zero (suc a) [] = ap (λ n. drop n []) (omega_right (suc a))
drop-drop (suc i) (suc a) [] =
    let e : suc a + suc i ≡ suc (a + suc i) = omega arith in sym (ap (λ n. drop n []) e)
drop-drop i (suc a) (x ∷ xs) =
    let e : suc a + i ≡ suc (a + i) = omega arith in
    drop-drop i a xs ∙ sym (ap (λ n. drop n (x ∷ xs)) e)
