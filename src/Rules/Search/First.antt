-- ===== src/Rules/Search/First.antt =====
-- The searches of src/rules.rs as the first index of a range that passes a test.
use argus_ips.Address.{Bytes}
use argus_ips.Base.{
  not_leb, plus_zero, ℕ, zero, suc, ◌+◌, ◌-◌, ◌≤◌, Bool, true, false, [], ◌∷◌, Option, none, some,
  length, take, drop, get_elem?, leb, leb→le, if◌then◌else◌, if_true, if_false, ◌≡◌, refl, sym, ap,
  ◌∙◌, inl, inr, arith, Bool-cases,
}
use argus_ips.Rules.Search.{position, windows}

-- The first of `count` numbers from `at` on that passes.
abbrev pub first : (ℕ → Bool) → ℕ → ℕ → Option ℕ
first p zero at = none
first p (suc count) at = let rest = first p count (at + 1) in if p at then some at else rest

pub first-cong :
    (p q : ℕ → Bool) (count at : ℕ) → ((i : ℕ) → p i ≡ q i) → first p count at ≡ first q count at
first-cong p q zero at h = refl
first-cong p q (suc count) at h =
    ap (λ b. if b then some at else first p count (at + 1)) (h at)
    ∙ ap (λ r. if q at then some at else r) (first-cong p q count (at + 1) h)

next_index : (at j : ℕ) → at + 1 + j ≡ at + suc j
next_index at j = omega arith

pub first-windows :
    (q : Bytes → Bool) (p : ℕ → Bool) (m : ℕ) (bs : Bytes) (at : ℕ)
    → 1 ≤ m
    → ((j : ℕ) → p (at + j) ≡ q (take m (drop j bs)))
    → position q (windows m bs) at ≡ first p (length bs + 1 - m) at
first-windows q p m [] at h e =
    let z : length {A = ℕ} [] + 1 - m ≡ 0 = omega (arith, h) in ap (λ n. first p n at) (sym z)
first-windows q p m (b ∷ bs) at h e = elim (Bool-cases (leb m (length (b ∷ bs)))) [
  | inl l ↦
      let c : length (b ∷ bs) + 1 - m ≡ suc (length bs + 1 - m) = omega (arith, leb→le m _ l, h) in
      let k : p at ≡ q (take m (b ∷ bs)) = ap p (plus_zero at) ∙ e 0 in
      ap (λ ws. position q ws at) (if_true _ _ l)
      ∙ ap (λ t. if t then some at else position q (windows m bs) (at + 1)) (sym k)
      ∙ ap (λ r. if p at then some at else r)
          (first-windows q p m bs (at + 1) h (λ j. ap p (next_index at j) ∙ e (suc j)))
      ∙ ap (λ n. first p n at) (sym c)
  | inr l ↦
      let c : length (b ∷ bs) + 1 - m ≡ 0 = omega (arith, not_leb m (length (b ∷ bs)) l) in
      ap (λ ws. position q ws at) (if_false _ _ l) ∙ ap (λ n. first p n at) (sym c)
]

rejected : (a b : Bool) → (a ≡ true → b ≡ true) → b ≡ false → a ≡ false
rejected true b h k = sym (h refl) ∙ k
rejected false b h k = refl

module _ (q : ℕ → Bool) (p : ℕ → Bool) where
  -- What the search of a window makes of a result, when only bytes that pass q can be starts.
  abbrev pub from_found : Option ℕ → ℕ → Option ℕ
  from_found none stop = none
  from_found (some i) stop = first p (stop - i) i

  pub first-position :
      (window : Bytes) (at : ℕ)
      → ((j x : ℕ) → get_elem? window j ≡ some x → p (at + j) ≡ true → q x ≡ true)
      → first p (length window) at ≡ from_found (position q window at) (at + length window)
  first-position [] at h = refl
  first-position (x ∷ window) at h = elim (Bool-cases (q x)) [
    | inl e ↦
        let c : at + length (x ∷ window) - at ≡ suc (length window) = omega arith in
        sym (ap (λ n. first p n at) c)
        ∙ sym (ap (λ o. from_found o (at + length (x ∷ window))) (if_true _ _ e))
    | inr e ↦
        let f : p at ≡ false =
          rejected (p at) (q x) (λ t. h 0 x refl (ap p (sym (plus_zero at)) ∙ t)) e in
        let c : at + 1 + length window ≡ at + length (x ∷ window) = omega arith in
        if_false _ _ f
        ∙ first-position window (at + 1)
            (λ j y g t. h (suc j) y g (sym (ap p (next_index at j)) ∙ t))
        ∙ ap (from_found (position q window (at + 1))) c
        ∙ sym (ap (λ o. from_found o (at + length (x ∷ window))) (if_false _ _ e))
  ]
