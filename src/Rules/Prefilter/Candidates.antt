-- ===== src/Rules/Prefilter/Candidates.antt =====
-- The candidates of one scan (src/rules.rs): every pattern that the automaton finds makes its
-- owner a candidate.
use argus_ips.Base.{
  ℕ, zero, suc, ◌-◌, ◌≤◌, Bool, true, false, ◌||◌, List, [], ◌∷◌, ◌++◌, length, get_or, set,
  replicate, get_or-set_ne, ltb, ◌==◌, ==_iff, decide_eq, mem, or_true, if◌then◌else◌, ◌≡◌, refl,
  sym, ap, ◌∙◌, inl, inr, arith, Bool-cases,
}
use argus_ips.Rules.Prefilter.{MatchScratch, begin, mark_candidate, offer_all}

-- No stamp is newer than the round.
abbrev pub IsStamped : MatchScratch → Type 0
IsStamped s = (i : ℕ) → get_or s.seen i 0 ≤ s.generation

-- A stamp of this round is that of a candidate.
abbrev pub IsCurrent : MatchScratch → Type 0
IsCurrent s =
    (1 ≤ s.generation) × ((i : ℕ) → get_or s.seen i 0 ≡ s.generation → mem i s.candidates ≡ true)

mem-append : (i : ℕ) (xs ys : List ℕ) → mem i xs ≡ true → mem i (xs ++ ys) ≡ true
mem-append i [] ys h = absurd (cc)
mem-append i (x ∷ xs) ys h = ground (arith, mem-append i xs ys, h)

mem-last : (i : ℕ) (xs : List ℕ) → mem i (xs ++ (i ∷ [])) ≡ true
mem-last i [] = ground arith
mem-last i (x ∷ xs) = ap (◌||◌ (x == i)) (mem-last i xs) ∙ or_true (x == i)

get_or-append_zeros : (xs : List ℕ) (k i : ℕ) → get_or (xs ++ replicate k 0) i 0 ≤ get_or xs i 0
get_or-append_zeros [] zero i = omega arith
get_or-append_zeros [] (suc k) zero = omega arith
get_or-append_zeros [] (suc k) (suc i) = get_or-append_zeros [] k i
get_or-append_zeros (x ∷ xs) k zero = omega arith
get_or-append_zeros (x ∷ xs) k (suc i) = get_or-append_zeros xs k i

resized :
    (b : Bool) (xs : List ℕ) (k i : ℕ)
    → get_or (if b then xs ++ replicate k 0 else xs) i 0 ≤ get_or xs i 0
resized true xs k i = get_or-append_zeros xs k i
resized false xs k i = omega arith

pub begin-IsCurrent : (s : MatchScratch) (rules : ℕ) → IsStamped s → IsCurrent (begin s rules)
begin-IsCurrent s rules h = (
  omega arith,
  λ i e.
      absurd (
        omega
          (arith, resized (ltb (length s.seen) rules) s.seen (rules - length s.seen) i, h i, e)),
)

get_or-set_bound :
    (xs : List ℕ) (j v i n : ℕ) → v ≤ n → get_or xs i 0 ≤ n → get_or (set xs j v) i 0 ≤ n
get_or-set_bound [] j v i n q h = h
get_or-set_bound (x ∷ xs) zero v zero n q h = q
get_or-set_bound (x ∷ xs) zero v (suc i) n q h = h
get_or-set_bound (x ∷ xs) (suc j) v zero n q h = h
get_or-set_bound (x ∷ xs) (suc j) v (suc i) n q h = get_or-set_bound xs j v i n q h

begin-IsStamped : (s : MatchScratch) (rules : ℕ) → IsStamped s → IsStamped (begin s rules)
begin-IsStamped s rules h i =
    omega (arith, resized (ltb (length s.seen) rules) s.seen (rules - length s.seen) i, h i)

-- The push of a candidate that is new.
abbrev pushed : MatchScratch → ℕ → MatchScratch
pushed s idx = record s {
  candidates = s.candidates ++ (idx ∷ []);
  seen = set s.seen idx s.generation;
}

of_both {ℓ} :
    {A : Type ℓ} (P : A → Type 0) (b : Bool) (x y : A)
    → (b ≡ true → P x)
    → (b ≡ false → P y)
    → P (if b then x else y)
of_both P true x y f g = f refl
of_both P false x y f g = g refl

mark_candidate-IsCurrent :
    (s : MatchScratch) (idx : ℕ) → IsCurrent s → IsCurrent (mark_candidate s idx)
mark_candidate-IsCurrent s idx h =
    of_both IsCurrent (get_or s.seen idx 0 == s.generation) s (pushed s idx) (λ t. h)
      (λ t. (
        h.0,
        λ i e. elim (decide_eq idx i) [
          | inl q ↦ ap (λ j. mem j (s.candidates ++ (idx ∷ []))) (sym q) ∙ mem-last idx s.candidates
          | inr ne ↦
              mem-append i s.candidates (idx ∷ [])
                (h.1 i (sym (get_or-set_ne s.seen idx i s.generation 0 ne) ∙ e))
        ],
      ))

mark_candidate-IsStamped :
    (s : MatchScratch) (idx : ℕ) → IsStamped s → IsStamped (mark_candidate s idx)
mark_candidate-IsStamped s idx h =
    of_both IsStamped (get_or s.seen idx 0 == s.generation) s (pushed s idx) (λ t. h)
      (λ t i. get_or-set_bound s.seen idx s.generation i s.generation (omega arith) (h i))

mark_candidate-mem :
    (s : MatchScratch) (idx : ℕ) → IsCurrent s → mem idx (mark_candidate s idx).candidates ≡ true
mark_candidate-mem s idx h =
    of_both (λ t. mem idx t.candidates ≡ true) (get_or s.seen idx 0 == s.generation) s
      (pushed s idx) (λ t. h.1 idx ((==_iff (get_or s.seen idx 0) s.generation).0 t))
      (λ t. mem-last idx s.candidates)

mark_candidate-keeps :
    (s : MatchScratch) (idx i : ℕ)
    → mem i s.candidates ≡ true
    → mem i (mark_candidate s idx).candidates ≡ true
mark_candidate-keeps s idx i h =
    of_both (λ t. mem i t.candidates ≡ true) (get_or s.seen idx 0 == s.generation) s (pushed s idx)
      (λ t. h) (λ t. mem-append i s.candidates (idx ∷ []) h)

offer_all-keeps :
    (owners : List ℕ) (s : MatchScratch) (ids : List ℕ) (i : ℕ)
    → mem i s.candidates ≡ true
    → mem i (offer_all owners s ids).candidates ≡ true
offer_all-keeps owners s [] i h = h
offer_all-keeps owners s (id ∷ ids) i h =
    offer_all-keeps owners (mark_candidate s (get_or owners id 0)) ids i
      (mark_candidate-keeps s (get_or owners id 0) i h)

-- Every pattern found makes its owner a candidate.
pub offer_all-mem :
    (owners : List ℕ) (s : MatchScratch) (ids : List ℕ) (id : ℕ)
    → IsCurrent s
    → mem id ids ≡ true
    → mem (get_or owners id 0) (offer_all owners s ids).candidates ≡ true
offer_all-mem owners s [] id c h = absurd (cc)
offer_all-mem owners s (x ∷ ids) id c h = elim (Bool-cases (x == id)) [
  | inl t ↦ offer_all-keeps owners (mark_candidate s (get_or owners x 0)) ids (get_or owners id 0) (
      ap (λ j. mem (get_or owners j 0) (mark_candidate s (get_or owners x 0)).candidates)
        (sym ((==_iff x id).0 t))
      ∙ mark_candidate-mem s (get_or owners x 0) c)
  | inr t ↦
      offer_all-mem owners (mark_candidate s (get_or owners x 0)) ids id
        (mark_candidate-IsCurrent s (get_or owners x 0) c) (sym (ap (λ b. b || mem id ids) t) ∙ h)
]

offer_all-IsStamped :
    (owners : List ℕ) (s : MatchScratch) (ids : List ℕ)
    → IsStamped s
    → IsStamped (offer_all owners s ids)
offer_all-IsStamped owners s [] h = h
offer_all-IsStamped owners s (id ∷ ids) h =
    offer_all-IsStamped owners (mark_candidate s (get_or owners id 0)) ids
      (mark_candidate-IsStamped s (get_or owners id 0) h)

-- A scan leaves the scratch as the next scan expects it.
offer_all-begin-IsStamped :
    (owners : List ℕ) (s : MatchScratch) (rules : ℕ) (ids : List ℕ)
    → IsStamped s
    → IsStamped (offer_all owners (begin s rules) ids)
offer_all-begin-IsStamped owners s rules ids h =
    offer_all-IsStamped owners (begin s rules) ids (begin-IsStamped s rules h)
