-- ===== src/Rules/Search/NoCase.antt =====
-- `find_nocase` of src/rules.rs, which skips from one candidate to the next, against `find_subslice`
-- of the lower-cased bytes.
use argus_ips.Address.{Bytes, bytes_eq}
use argus_ips.Base.{
  not_ltb, plus_zero, ℕ, zero, suc, ◌+◌, ◌-◌, ◌<◌, ◌≤◌, Bool, true, false, ◌||◌, List, [], ◌∷◌, map,
  Option, none, some, length, take, drop, slice, get_elem?, get_or, length-take, length-drop, ltb,
  ltb→lt, ◌==◌, if◌then◌else◌, if_true, if_false, ◌≡◌, refl, sym, ap, ◌∙◌, inl, inr, arith,
  Bool-cases, and_left,
}
use argus_ips.Rules.Search.{
  Memchr, position, find_subslice, find_nocase, nocase_loop, first_byte, to_lower, to_upper,
  eq_ignore_case,
}
use argus_ips.Rules.Search.First.{first, first-cong, first-windows, first-position, from_found}

-- A byte that can be the first of a match.
abbrev starts : ℕ → ℕ → Bool
starts l x = x == l || x == to_upper l

position-cong :
    (p q : ℕ → Bool) (w : Bytes) (at : ℕ)
    → ((x : ℕ) → p x ≡ q x)
    → position p w at ≡ position q w at
position-cong p q [] at h = refl
position-cong p q (x ∷ w) at h =
    ap (λ b. if b then some at else position p w (at + 1)) (h x)
    ∙ ap (λ r. if q x then some at else r) (position-cong p q w (at + 1) h)

abbrev shifted : ℕ → Option ℕ → Option ℕ
shifted k none = none
shifted k (some d) = some (k + d)

shifted-if :
    (k d : ℕ) (b : Bool) (o : Option ℕ)
    → (if b then some (k + d) else shifted k o) ≡ shifted k (if b then some d else o)
shifted-if k d true o = refl
shifted-if k d false o = refl

position-shifted :
    (p : ℕ → Bool) (w : Bytes) (k d : ℕ) → position p w (k + d) ≡ shifted k (position p w d)
position-shifted p [] k d = refl
position-shifted p (x ∷ w) k d =
    let e : k + d + 1 ≡ k + (d + 1) = omega arith in
    ap (λ r. if p x then some (k + d) else r) (ap (position p w) e ∙ position-shifted p w k (d + 1))
    ∙ shifted-if k d (p x) (position p w (d + 1))

pub position-bound :
    (p : ℕ → Bool) (w : Bytes) (at d : ℕ) → position p w at ≡ some d → d < at + length w
position-bound p [] at d h = absurd (cc)
position-bound p (x ∷ w) at d h = ground (arith, position-bound p w (at + 1) d, h)

get_elem?-drop : (h : Bytes) (a j : ℕ) → get_elem? (drop a h) j ≡ get_elem? h (a + j)
get_elem?-drop h zero j = ap (get_elem? h) (omega arith)
get_elem?-drop [] (suc a) j = refl
get_elem?-drop (x ∷ h) (suc a) j =
    let e : suc a + j ≡ suc (a + j) = omega arith in
    get_elem?-drop h a j ∙ sym (ap (get_elem? (x ∷ h)) e)

get_elem?-take :
    (k : ℕ) (w : Bytes) (j x : ℕ) → get_elem? (take k w) j ≡ some x → get_elem? w j ≡ some x
get_elem?-take zero w j x h = absurd (cc)
get_elem?-take (suc k) [] j x h = h
get_elem?-take (suc k) (y ∷ w) zero x h = h
get_elem?-take (suc k) (y ∷ w) (suc j) x h = get_elem?-take k w j x h

drop-get : (h : Bytes) (i x : ℕ) → get_elem? h i ≡ some x → (rest : Bytes) × (drop i h ≡ x ∷ rest)
drop-get [] i x e = absurd (cc)
drop-get (y ∷ h) zero x e = (h, cc)
drop-get (y ∷ h) (suc i) x e = drop-get h i x e

-- In bytes without regard to case, a match begins with the needle's first byte or its capital.
starts_lem : (l x : ℕ) → to_lower l ≡ l → (to_lower x == to_lower l) ≡ true → starts l x ≡ true
starts_lem l x h e = ground (arith, h, e)

module _ (c : Memchr) (l : ℕ) (ns h : Bytes) (last : ℕ) where
  -- A match at an index.
  abbrev ci : ℕ → Bool
  ci i = eq_ignore_case (slice h i (i + length (l ∷ ns))) (l ∷ ns)

  abbrev window : ℕ → Bytes
  window at = slice h at (last + 1)

  window-candidate :
      (at j x : ℕ)
      → to_lower l ≡ l
      → get_elem? (window at) j ≡ some x
      → ci (at + j) ≡ true
      → starts l x ≡ true
  window-candidate at j x lower g t =
      let f : get_elem? h (at + j) ≡ some x =
        sym (get_elem?-drop h at j) ∙ get_elem?-take (last + 1 - at) (drop at h) j x g in
      let r = drop-get h (at + j) x f in
      let k : at + j + length (l ∷ ns) - (at + j) ≡ suc (length ns) = omega arith in
      let s : slice h (at + j) (at + j + length (l ∷ ns)) ≡ x ∷ take (length ns) r.0 =
        ap (λ n. take n (drop (at + j) h)) k ∙ ap (take (suc (length ns))) r.1 in
      starts_lem l x lower (
        and_left (to_lower x == to_lower l)
          (bytes_eq (map to_lower (take (length ns) r.0)) (map to_lower ns))
          (sym (ap (λ b. eq_ignore_case b (l ∷ ns)) s) ∙ t))

  length-window : (at : ℕ) → last < length h → length (window at) ≡ last + 1 - at
  length-window at b = omega (arith, length-take (last + 1 - at) (drop at h), length-drop at h, b)

  -- The loop after the search of its window.
  abbrev after : Option ℕ → ℕ → ℕ → Option ℕ
  after o rounds at = elim o [
    | none ↦ none
    | some d ↦
        let rest = nocase_loop c h (l ∷ ns) last rounds (at + d + 1) in
        if ci (at + d) then some (at + d) else rest
  ]

  after_found :
      (o : Option ℕ) (rounds at : ℕ)
      → ((d : ℕ) → o ≡ some d → d < last + 1 - at)
      → ((i : ℕ)
          → at ≤ i
          → nocase_loop c h (l ∷ ns) last rounds (i + 1) ≡ first ci (last + 1 - (i + 1)) (i + 1))
      → at ≤ last
      → after o rounds at ≡ from_found (starts l) ci (shifted at o) (at + (last + 1 - at))
  after_found none rounds at b rec k = refl
  after_found (some d) rounds at b rec k =
      let n : at + (last + 1 - at) - (at + d) ≡ suc (last + 1 - (at + d + 1)) =
        omega (arith, b d refl, k) in
      ap (λ r. if ci (at + d) then some (at + d) else r) (rec (at + d) (omega arith))
      ∙ sym (ap (λ n. first ci n (at + d)) n)

  nocase_loop-first :
      ((w : Bytes) → first_byte c l w ≡ position (starts l) w 0)
      → to_lower l ≡ l
      → last < length h
      → (rounds at : ℕ) → last + 1 ≤ rounds + at
      → nocase_loop c h (l ∷ ns) last rounds at ≡ first ci (last + 1 - at) at
  nocase_loop-first law lower b zero at r =
      let z : last + 1 - at ≡ 0 = omega (arith, r) in sym (ap (λ n. first ci n at) z)
  nocase_loop-first law lower b (suc rounds) at r = elim (Bool-cases (ltb last at)) [
    | inl e ↦
        let z : last + 1 - at ≡ 0 = omega (arith, ltb→lt last at e) in
        if_true _ _ e ∙ sym (ap (λ n. first ci n at) z)
    | inr e ↦
        let n : length (window at) ≡ last + 1 - at = length-window at b in
        let o : Option ℕ = position (starts l) (window at) 0 in
        let q : position (starts l) (window at) at ≡ shifted at o =
          ap (position (starts l) (window at)) (plus_zero at)
          ∙ position-shifted (starts l) (window at) at 0 in
        if_false _ _ e
        ∙ ap (λ o. after o rounds at) (law (window at))
        ∙ after_found o rounds at
            (λ d f. omega (arith, n, position-bound (starts l) (window at) 0 d f))
            (λ i k. nocase_loop-first law lower b rounds (i + 1) (omega (arith, r, k)))
            (not_ltb last at e)
        ∙ sym (ap (λ x. from_found (starts l) ci x (at + (last + 1 - at))) q)
        ∙ sym (ap (λ k. from_found (starts l) ci (position (starts l) (window at) at) (at + k)) n)
        ∙ sym (
            first-position (starts l) ci (window at) at
              (λ j x g t. window-candidate at j x lower g t))
        ∙ ap (λ k. first ci k at) n
  ]

one_case : (a b x : ℕ) → (a == b) ≡ true → (x == a) ≡ (x == a || x == b)
one_case a b x h = ground (arith, h)

omega_plus : (n : ℕ) → 0 + n ≡ n
omega_plus n = omega arith

first_byte-position :
    (c : Memchr) (l : ℕ)
    → ((b : ℕ) (w : Bytes) → c.memchr b w ≡ position (λ x. x == b) w 0)
    → ((a b : ℕ) (w : Bytes) → c.memchr2 a b w ≡ position (λ x. x == a || x == b) w 0)
    → (w : Bytes) → first_byte c l w ≡ position (starts l) w 0
first_byte-position c l h k w = elim (Bool-cases (l == to_upper l)) [
  | inl e ↦
      if_true _ _ e
      ∙ h l w
      ∙ position-cong (λ x. x == l) (starts l) w 0 (λ x. one_case l (to_upper l) x e)
  | inr e ↦ if_false _ _ e ∙ k l (to_upper l) w
]

module _ {ℓ κ} {A : Type ℓ} {B : Type κ} (f : A → B) where
  map-take : (n : ℕ) (xs : List A) → map f (take n xs) ≡ take n (map f xs)
  map-take zero xs = refl
  map-take (suc n) [] = refl
  map-take (suc n) (x ∷ xs) = ap (◌∷◌ (f x)) (map-take n xs)

  map-drop : (n : ℕ) (xs : List A) → map f (drop n xs) ≡ drop n (map f xs)
  map-drop zero xs = refl
  map-drop (suc n) [] = refl
  map-drop (suc n) (x ∷ xs) = map-drop n xs

  length-map : (xs : List A) → length (map f xs) ≡ length xs
  length-map [] = refl
  length-map (x ∷ xs) = ap suc (length-map xs)

-- A match without regard to case is a match in the lower-cased bytes.
ci-lower :
    (l : ℕ) (ns h : Bytes) (i : ℕ)
    → map to_lower (l ∷ ns) ≡ l ∷ ns
    → eq_ignore_case (slice h i (i + length (l ∷ ns))) (l ∷ ns)
      ≡ bytes_eq (take (length (l ∷ ns)) (drop i (map to_lower h))) (l ∷ ns)
ci-lower l ns h i e =
    let k : i + length (l ∷ ns) - i ≡ length (l ∷ ns) = omega arith in
    ap (bytes_eq (map to_lower (slice h i (i + length (l ∷ ns))))) e
    ∙ ap (λ n. bytes_eq (map to_lower (take n (drop i h))) (l ∷ ns)) k
    ∙ ap (λ b. bytes_eq b (l ∷ ns))
        (map-take to_lower (length (l ∷ ns)) (drop i h)
          ∙ ap (take (length (l ∷ ns))) (map-drop to_lower i h))

not_empty : (n : ℕ) → (suc n == 0) ≡ false
not_empty n = ground arith

pub guard :
    (n : ℕ) (t : Bool) (x y : Option ℕ) → (if suc n == 0 || t then x else y) ≡ (if t then x else y)
guard n t x y = ap (λ b. if b || t then x else y) (not_empty n)

pub find_subslice-first :
    (l : ℕ) (ns bs : Bytes)
    → find_subslice bs (l ∷ ns) ≡ (
        if ltb (length bs) (length (l ∷ ns))
        then none
        else first
            (λ i. bytes_eq (take (length (l ∷ ns)) (drop i bs)) (l ∷ ns))
            (length bs + 1 - length (l ∷ ns))
            0)
find_subslice-first l ns bs =
    guard (length ns) (ltb (length bs) (length (l ∷ ns))) _ _
    ∙ ap (λ r. if ltb (length bs) (length (l ∷ ns)) then none else r)
        (first-windows (λ w. bytes_eq w (l ∷ ns))
          (λ i. bytes_eq (take (length (l ∷ ns)) (drop i bs)) (l ∷ ns)) (length (l ∷ ns)) bs 0
          (omega arith)
          (λ j. ap (λ i. bytes_eq (take (length (l ∷ ns)) (drop i bs)) (l ∷ ns)) (omega_plus j)))

first_lower : (l : ℕ) (ns : Bytes) → map to_lower (l ∷ ns) ≡ l ∷ ns → to_lower l ≡ l
first_lower l ns e = ap (λ b. get_or b 0 0) e

-- When `memchr` and `memchr2` find the first of the bytes they are given, and the needle is in lower
-- case: the search that ignores case gives the result that the plain search has in the lower-cased
-- bytes, found or not.
pub find_nocase-find_subslice :
    (c : Memchr)
    → ((b : ℕ) (w : Bytes) → c.memchr b w ≡ position (λ x. x == b) w 0)
    → ((a b : ℕ) (w : Bytes) → c.memchr2 a b w ≡ position (λ x. x == a || x == b) w 0)
    → (h needle : Bytes) → map to_lower needle ≡ needle
    → find_nocase c h needle ≡ find_subslice (map to_lower h) needle
find_nocase-find_subslice c p q h [] e = refl
find_nocase-find_subslice c p q h (l ∷ ns) e =
    elim (Bool-cases (ltb (length h) (length (l ∷ ns)))) [
      | inl t ↦
          guard (length ns) (ltb (length h) (length (l ∷ ns))) _ _
          ∙ if_true _ _ t
          ∙ sym (
              find_subslice-first l ns (map to_lower h)
              ∙ if_true _ _ (ap (λ n. ltb n (length (l ∷ ns))) (length-map to_lower h) ∙ t))
      | inr t ↦
          let m : ℕ = length (l ∷ ns) in
          let lower : to_lower l ≡ l = first_lower l ns e in
          let k : length (l ∷ ns) ≤ length h = not_ltb (length h) (length (l ∷ ns)) t in
          let last : ℕ = length h - m in
          let n : last + 1 - 0 ≡ length h + 1 - m = omega (arith, k) in
          guard (length ns) (ltb (length h) m) _ _
          ∙ if_false _ _ t
          ∙ nocase_loop-first c l ns h last (first_byte-position c l p q) lower (omega (arith, k))
              (last + 1) 0 (omega arith)
          ∙ first-cong (ci c l ns h last)
              (λ i. bytes_eq (take m (drop i (map to_lower h))) (l ∷ ns)) (last + 1 - 0) 0
              (λ i. ci-lower l ns h i e)
          ∙ ap (λ n. first (λ i. bytes_eq (take m (drop i (map to_lower h))) (l ∷ ns)) n 0) n
          ∙ sym (
              find_subslice-first l ns (map to_lower h)
              ∙ if_false _ _ (ap (λ n. ltb n m) (length-map to_lower h) ∙ t)
              ∙ ap
                  (λ n.
                    first (λ i. bytes_eq (take m (drop i (map to_lower h))) (l ∷ ns)) (n + 1 - m) 0)
                  (length-map to_lower h))
    ]
