-- ===== src/Rules/Flowbits/Parts/Once.antt =====
-- How often the calls of `mark_part` (src/rules.rs) announce a rule.
use argus_ips.Base.{
  mem, eq_false, ℕ, zero, suc, ◌≤◌, Bool, true, false, not, ◌&&◌, ◌||◌, List, [], ◌∷◌, some, ◌==◌,
  decide_eq, if_same, if_differ, if_true, if_false, some_inj, if◌then◌else◌, ◌≡◌, refl, sym, ap,
  ◌∙◌, inl, inr, arith, or_true,
}
use argus_ips.Rules.Flowbits.{new}
use argus_ips.Rules.Flowbits.Parts.{mark_all, parts_of, completes, announce, IsCalls, mark_all_lem}
use argus_ips.Rules.Flowbits.Parts.Mask.{all_mem, all_mem-true, all_mem-elim, all_mem-cons}

-- How many of a rule's calls returned true.
abbrev pub count_true : ℕ → List (ℕ × ℕ) → List Bool → ℕ
count_true id [] rs = 0
count_true id (c ∷ calls) [] = 0
count_true id ((c, idx) ∷ calls) (r ∷ rs) =
    let rest = count_true id calls rs in if (c == id) && r then suc rest else rest

-- The calls once they have all been made, the last one first.
abbrev pub before : List (ℕ × ℕ) → List (ℕ × ℕ) → List (ℕ × ℕ)
before [] earlier = earlier
before (c ∷ calls) earlier = before calls (c ∷ earlier)

or_shuffle : (a b c : Bool) → (a || (b || c)) ≡ ((b || a) || c)
or_shuffle a b c = ground arith

mem_moved :
    (b : Bool) (i x : ℕ) (p q : List ℕ)
    → (mem i p || mem i (if b then x ∷ q else q)) ≡ (mem i (if b then x ∷ p else p) || mem i q)
mem_moved true i x p q = or_shuffle (mem i p) (x == i) (mem i q)
mem_moved false i x p q = refl

mem-before :
    (i id : ℕ) (calls earlier : List (ℕ × ℕ))
    → mem i (parts_of id (before calls earlier))
      ≡ (mem i (parts_of id calls) || mem i (parts_of id earlier))
mem-before i id [] earlier = refl
mem-before i id ((c, idx) ∷ calls) earlier =
    mem-before i id calls ((c, idx) ∷ earlier)
    ∙ mem_moved (c == id) i idx (parts_of id calls) (parts_of id earlier)

all_mem-before :
    (n id : ℕ) (calls earlier : List (ℕ × ℕ))
    → all_mem n (parts_of id earlier) ≡ true
    → all_mem n (parts_of id (before calls earlier)) ≡ true
all_mem-before n id calls earlier h = all_mem-true n (parts_of id (before calls earlier)) (λ i l.
    mem-before i id calls earlier
    ∙ ap (λ b. mem i (parts_of id calls) || b) (all_mem-elim n (parts_of id earlier) h i l)
    ∙ or_true (mem i (parts_of id calls)))

eq_true : (a b : ℕ) → a ≡ b → (a == b) ≡ true
eq_true a b h = ground (arith, h)

none_yet : (a : Bool) → ◌≡◌ {A = ℕ} 0 (if a then 0 else if a then 1 else 0)
none_yet true = refl
none_yet false = refl

-- One call of the rule: announced before (a), complete with it (b), complete in the end (f).
counted :
    (a b f : Bool) (n : ℕ)
    → (a ≡ true → b ≡ true)
    → (b ≡ true → f ≡ true)
    → n ≡ (if b then 0 else if f then 1 else 0)
    → (if b && not a then suc n else n) ≡ (if a then 0 else if f then 1 else 0)
counted true true f n h k e = e
counted true false f n h k e = absurd (let q : false ≡ true = h refl in cc)
counted false true true n h k e = ap suc e
counted false true false n h k e = absurd (let q : false ≡ true = k refl in cc)
counted false false f n h k e = e

once :
    (totals : ℕ → ℕ) (id : ℕ) (earlier calls : List (ℕ × ℕ))
    → count_true id calls (announce totals earlier calls) ≡ (
        if all_mem (totals id) (parts_of id earlier)
        then 0
        else if all_mem (totals id) (parts_of id (before calls earlier))
        then 1
        else 0)
once totals id earlier [] = none_yet (all_mem (totals id) (parts_of id earlier))
once totals id earlier ((c, idx) ∷ calls) =
    let seen : List ℕ = parts_of id earlier in
    let next : List (ℕ × ℕ) = (c, idx) ∷ earlier in
    let final : Bool = all_mem (totals id) (parts_of id (before calls next)) in
    let n : ℕ = count_true id calls (announce totals next calls) in
    let rest : n ≡ (if all_mem (totals id) (parts_of id next) then 0 else if final then 1 else 0) =
      once totals id next calls in
    elim (decide_eq c id) [
      | inl q ↦
          let s : parts_of id next ≡ idx ∷ seen = if_same c id _ _ q in
          let cond : ((c == id) && completes (totals c) (parts_of c earlier) idx)
              ≡ completes (totals id) seen idx =
            ap (λ b. b && completes (totals c) (parts_of c earlier) idx) (eq_true c id q)
            ∙ ap (λ j. completes (totals j) (parts_of j earlier) idx) q in
          ap (λ b. if b then suc n else n) cond
          ∙ counted (all_mem (totals id) seen) (all_mem (totals id) (idx ∷ seen)) final n
              (all_mem-cons (totals id) idx seen)
              (λ t. all_mem-before (totals id) id calls next (ap (all_mem (totals id)) s ∙ t))
              (rest ∙ ap (λ l. if all_mem (totals id) l then 0 else if final then 1 else 0) s)
      | inr q ↦
          let s : parts_of id next ≡ seen = if_differ c id _ _ q in
          ap (λ b. if b && completes (totals c) (parts_of c earlier) idx then suc n else n)
            (eq_false c id q)
          ∙ rest
          ∙ ap (λ l. if all_mem (totals id) l then 0 else if final then 1 else 0) s
    ]

all_mem-parts :
    (n id : ℕ) (calls : List (ℕ × ℕ))
    → all_mem n (parts_of id calls) ≡ true
    → all_mem n (parts_of id (before calls [])) ≡ true
all_mem-parts n id calls h = all_mem-true n (parts_of id (before calls [])) (λ i l.
    mem-before i id calls [] ∙ ap (λ b. b || false) (all_mem-elim n (parts_of id calls) h i l))

no_parts : (n : ℕ) → 1 ≤ n → all_mem n [] ≡ false
no_parts zero h = absurd (omega arith)
no_parts (suc n) h = refl

-- On a new flow, when every rule has between one and fifteen parts, and every call names a rule
-- below the number k of rules and one of its parts: if all parts of a rule come among the calls, in
-- whatever order and however often, then exactly one of the rule's calls returns true.
pub mark_all-fires :
    (totals : ℕ → ℕ) (k : ℕ) (calls : List (ℕ × ℕ)) (rs : List Bool) (id : ℕ)
    → ((c : ℕ) → (1 ≤ totals c) × (totals c ≤ 15))
    → IsCalls totals k calls
    → mark_all totals k new calls ≡ some rs
    → all_mem (totals id) (parts_of id calls) ≡ true
    → count_true id calls rs ≡ 1
mark_all-fires totals k calls rs id h cs e full =
    let r : rs ≡ announce totals [] calls = some_inj (sym e ∙ mark_all_lem totals k calls h cs) in
    ap (count_true id calls) r
    ∙ once totals id [] calls
    ∙ if_false _ _ (no_parts (totals id) (h id).0)
    ∙ if_true _ _ (all_mem-parts (totals id) id calls full)
