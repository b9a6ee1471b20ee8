-- ===== src/Rules/Search/Bounds.antt =====
-- A literal that src/rules.rs finds lies inside the window.
use argus_ips.Address.{Bytes, bytes_eq}
use argus_ips.Base.{
  not_ltb, ℕ, zero, suc, ◌+◌, ◌-◌, ◌<◌, ◌≤◌, Bool, true, false, [], ◌∷◌, Option, none, some, length,
  take, drop, slice, get_or, length-take, ltb, ◌==◌, if◌then◌else◌, ◌≡◌, refl, sym, ◌∙◌, inl, inr,
  arith, Bool-cases, if_true, if_false,
}
use argus_ips.Rules.Search.{
  Memchr, find_subslice, find_nocase, nocase_loop, first_byte, eq_ignore_case, to_upper,
}
use argus_ips.Rules.Search.First.{first}
use argus_ips.Rules.Search.NoCase.{find_subslice-first, guard}

pub first-bound : (p : ℕ → Bool) (count at i : ℕ) → first p count at ≡ some i → i < at + count
first-bound p zero at i h = absurd (cc)
first-bound p (suc count) at i h = ground (arith, first-bound p count (at + 1) i, h)

pub find_subslice-bound :
    (bs needle : Bytes) (i : ℕ) → find_subslice bs needle ≡ some i → i + length needle ≤ length bs
find_subslice-bound bs [] i h = absurd (cc)
find_subslice-bound bs (l ∷ ns) i h = elim (Bool-cases (ltb (length bs) (length (l ∷ ns)))) [
  | inl t ↦
      let z : none ≡ some i = sym (if_true _ _ t) ∙ sym (find_subslice-first l ns bs) ∙ h in
      absurd (cc)
  | inr t ↦
      let p : ℕ → Bool = λ i. bytes_eq (take (length (l ∷ ns)) (drop i bs)) (l ∷ ns) in
      let z : first p (length bs + 1 - length (l ∷ ns)) 0 ≡ some i =
        sym (if_false _ _ t) ∙ sym (find_subslice-first l ns bs) ∙ h in
      omega (
        arith,
        first-bound p (length bs + 1 - length (l ∷ ns)) 0 i z,
        not_ltb (length bs) (length (l ∷ ns)) t,
      )
]

one_of :
    (b : Bool) (x i last : ℕ) (o : Option ℕ)
    → (if b then some x else o) ≡ some i
    → x ≤ last
    → (o ≡ some i → i ≤ last)
    → i ≤ last
one_of true x i last o e h k = ground (arith, e, h)
one_of false x i last o e h k = k e

module _ (c : Memchr) (one : (b : ℕ) (w : Bytes) (d : ℕ) → c.memchr b w ≡ some d → d < length w)
    (two : (a b : ℕ) (w : Bytes) (d : ℕ) → c.memchr2 a b w ≡ some d → d < length w) where
  first_byte-bound : (l : ℕ) (w : Bytes) (d : ℕ) → first_byte c l w ≡ some d → d < length w
  first_byte-bound l w d h = elim (Bool-cases (l == to_upper l)) [
    | inl e ↦ one l w d (sym (if_true _ _ e) ∙ h)
    | inr e ↦ two l (to_upper l) w d (sym (if_false _ _ e) ∙ h)
  ]

  -- The loop after the search of its window.
  abbrev after : Bytes → Bytes → ℕ → ℕ → ℕ → Option ℕ → Option ℕ
  after h needle last rounds at o = elim o [
    | none ↦ none
    | some d ↦
        let rest = nocase_loop c h needle last rounds (at + d + 1) in
        if eq_ignore_case (slice h (at + d) (at + d + length needle)) needle
        then some (at + d)
        else rest
  ]

  after-bound :
      (h needle : Bytes) (last rounds at i : ℕ) (o : Option ℕ)
      → ((d : ℕ) → o ≡ some d → at + d ≤ last)
      → ((at' : ℕ) → nocase_loop c h needle last rounds at' ≡ some i → i ≤ last)
      → after h needle last rounds at o ≡ some i
      → i ≤ last
  after-bound h needle last rounds at i none f rec e = absurd (cc)
  after-bound h needle last rounds at i (some d) f rec e =
      one_of (eq_ignore_case (slice h (at + d) (at + d + length needle)) needle) (at + d) i last _ e
        (f d refl) (rec (at + d + 1))

  loop-bound :
      (h needle : Bytes) (last rounds at i : ℕ)
      → last < length h
      → nocase_loop c h needle last rounds at ≡ some i
      → i ≤ last
  loop-bound h needle last zero at i b e = absurd (cc)
  loop-bound h needle last (suc rounds) at i b e = elim (Bool-cases (ltb last at)) [
    | inl t ↦ let z : none ≡ some i = sym (if_true _ _ t) ∙ e in absurd (cc)
    | inr t ↦
        let w : Bytes = slice h at (last + 1) in
        after-bound h needle last rounds at i (first_byte c (get_or needle 0 0) w)
          (λ d f. omega (
            arith,
            first_byte-bound (get_or needle 0 0) w d f,
            length-take (last + 1 - at) (drop at h),
            not_ltb last at t,
          ))
          (λ at' f. loop-bound h needle last rounds at' i b f) (sym (if_false _ _ t) ∙ e)
  ]

  pub find_nocase-bound :
      (h needle : Bytes) (i : ℕ) → find_nocase c h needle ≡ some i → i + length needle ≤ length h
  find_nocase-bound h [] i e = absurd (cc)
  find_nocase-bound h (l ∷ ns) i e = elim (Bool-cases (ltb (length h) (length (l ∷ ns)))) [
    | inl t ↦
        let z : none ≡ some i =
          sym (guard (length ns) (ltb (length h) (length (l ∷ ns))) _ _ ∙ if_true _ _ t) ∙ e in
        absurd (cc)
    | inr t ↦
        let last : ℕ = length h - length (l ∷ ns) in
        let k : length (l ∷ ns) ≤ length h = not_ltb (length h) (length (l ∷ ns)) t in
        omega (
          arith,
          k,
          loop-bound h (l ∷ ns) last (last + 1) 0 i (omega (arith, k))
              (sym (guard (length ns) (ltb (length h) (length (l ∷ ns))) _ _ ∙ if_false _ _ t) ∙ e),
        )
  ]
