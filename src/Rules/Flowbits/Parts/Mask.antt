-- ===== src/Rules/Flowbits/Parts/Mask.antt =====
-- The progress mask of `mark_part` (src/rules.rs) against the list of the parts that have matched.
use argus_ips.Base.{
  mem, eq_false, ℕ, zero, suc, ◌+◌, ◌-◌, ◌*◌, ◌/◌, ◌%◌, ◌^◌, ◌<◌, ◌≤◌, bit_and, bit_or, has_bit,
  has_bit-set_self, has_bit-set_ne, bit_and_step, and_zero, power_pos, has_bit-zero, has_bit-suc,
  Bool, true, false, not, ◌&&◌, ◌||◌, List, ◌∷◌, ◌≡◌, refl, ap, ◌∙◌, sym, inl, inr, ◌==◌, ==_iff,
  if◌then◌else◌, arith, decide_eq, and_left, and_right, and_both, or_true, bool_iff,
}
use argus_ips.Rules.Flowbits.{mark_mask, part_done}

abbrev pub all_mem : ℕ → List ℕ → Bool
all_mem zero seen = true
all_mem (suc n) seen = mem n seen && all_mem n seen

-- The mask holds the parts seen, and its top bit says that they are all the rule has.
abbrev pub IsProgress : ℕ → ℕ → List ℕ → Type 0
IsProgress total mask seen =
    ((i : ℕ) → i < total → has_bit mask i ≡ mem i seen) × (has_bit mask 15 ≡ all_mem total seen)

pub all_mem-true :
    (n : ℕ) (seen : List ℕ) → ((i : ℕ) → i < n → mem i seen ≡ true) → all_mem n seen ≡ true
all_mem-true zero seen h = refl
all_mem-true (suc n) seen h =
    ground (arith, h n (omega arith), all_mem-true n seen (λ i l. h i (omega arith)))

pub all_mem-elim :
    (n : ℕ) (seen : List ℕ) → all_mem n seen ≡ true → (i : ℕ) → i < n → mem i seen ≡ true
all_mem-elim zero seen h i l = absurd (omega arith)
all_mem-elim (suc n) seen h i l = elim (decide_eq i n) [
  | inl e ↦ ap (λ j. mem j seen) e ∙ and_left (mem n seen) (all_mem n seen) h
  | inr ne ↦ all_mem-elim n seen (and_right (mem n seen) (all_mem n seen) h) i (omega arith)
]

-- `mask & full == full`: every one of the lowest n bits is set.
has_all : ℕ → ℕ → Bool
has_all m n = bit_and m (2 ^ n - 1) == 2 ^ n - 1

lowest_bit :
    (w x p r : ℕ)
    → r ≤ 1
    → 1 ≤ p
    → w ≡ x * 2 + r
    → (w == p * 2 - 1) ≡ (not (r == 0) && (x == p - 1))
lowest_bit w x p zero h k e = ground (arith, e)
lowest_bit w x p (suc zero) h k e = ground (arith, e)
lowest_bit w x p (suc (suc r)) h k e = absurd (omega arith)

has_all-step : (m n : ℕ) → has_all m (suc n) ≡ (has_bit m 0 && has_all (m / 2) n)
unfolding has_all
has_all-step m n =
    let p : ℕ = 2 ^ n in
    let e : 2 ^ suc n ≡ 2 ^ n * 2 = omega arith in
    let f : (2 ^ n * 2 - 1) / 2 ≡ 2 ^ n - 1 = omega (arith, power_pos n) in
    let g : bit_and m (2 ^ n * 2 - 1) ≡ bit_and (m / 2) (2 ^ n - 1) * 2 + m % 2 =
      omega (arith, bit_and_step m (2 ^ n * 2 - 1), ap (bit_and (m / 2)) f, power_pos n) in
    ap (λ q. bit_and m (q - 1) == q - 1) e
    ∙ lowest_bit (bit_and m (2 ^ n * 2 - 1)) (bit_and (m / 2) (2 ^ n - 1)) (2 ^ n) (m % 2)
        (omega arith) (power_pos n) g
    ∙ ap (λ b. b && has_all (m / 2) n) (sym (has_bit-zero m))

has_all-true : (n m : ℕ) → ((i : ℕ) → i < n → has_bit m i ≡ true) → has_all m n ≡ true
unfolding has_all
has_all-true zero m h = ap (λ q. q == 0) (and_zero m)
has_all-true (suc n) m h =
    has_all-step m n
    ∙ and_both (has_bit m 0) (has_all (m / 2) n) (h 0 (omega arith))
        (has_all-true n (m / 2) (λ i l. sym (has_bit-suc m i) ∙ h (suc i) (omega arith)))

has_all-elim : (n m : ℕ) → has_all m n ≡ true → (i : ℕ) → i < n → has_bit m i ≡ true
has_all-elim zero m h i l = absurd (omega arith)
has_all-elim (suc n) m h zero l =
    and_left (has_bit m 0) (has_all (m / 2) n) (sym (has_all-step m n) ∙ h)
has_all-elim (suc n) m h (suc i) l =
    has_bit-suc m i
    ∙ has_all-elim n (m / 2)
        (and_right (has_bit m 0) (has_all (m / 2) n) (sym (has_all-step m n) ∙ h)) i (omega arith)

-- A mask that holds the parts seen has all of the rule's when the list does.
has_all-all_mem :
    (n m : ℕ) (seen : List ℕ)
    → ((i : ℕ) → i < n → has_bit m i ≡ mem i seen)
    → has_all m n ≡ all_mem n seen
has_all-all_mem n m seen h =
    bool_iff (has_all m n) (all_mem n seen)
      (λ e. all_mem-true n seen (λ i l. sym (h i l) ∙ has_all-elim n m e i l))
      (λ e. has_all-true n m (λ i l. h i l ∙ all_mem-elim n seen e i l))

marked_bit :
    (total mask idx : ℕ) (seen : List ℕ)
    → ((i : ℕ) → i < total → has_bit mask i ≡ mem i seen)
    → (i : ℕ) → i < total
    → has_bit (bit_or mask (2 ^ idx)) i ≡ mem i (idx ∷ seen)
marked_bit total mask idx seen h i l = elim (decide_eq idx i) [
  | inl e ↦
      ap (has_bit (bit_or mask (2 ^ idx))) (sym e)
      ∙ has_bit-set_self mask idx
      ∙ sym (ap (λ b. b || mem i seen) ((==_iff idx i).1 e))
  | inr ne ↦
      has_bit-set_ne mask idx i ne ∙ h i l ∙ sym (ap (λ b. b || mem i seen) (eq_false idx i ne))
]

-- The three ends of `mark_part`: fired before, the last part, a part before the last.
choose : Bool → Bool → ℕ → ℕ → ℕ × Bool
choose true last mask marked = (mask, false)
choose false true mask marked = (bit_or marked part_done, true)
choose false false mask marked = (marked, false)

if_choose :
    (fired last : Bool) (mask marked : ℕ)
    → (if fired
        then (mask, false)
        else if last
        then (bit_or marked part_done, true)
        else (marked, false))
      ≡ choose fired last mask marked
unfolding choose
if_choose true last mask marked = refl
if_choose false true mask marked = refl
if_choose false false mask marked = refl

mark_mask-choose :
    (mask idx total : ℕ)
    → idx < 16
    → total < 16
    → mark_mask mask idx total
      ≡ choose
          (has_bit mask 15)
          (has_all (bit_or mask (2 ^ idx)) total)
          mask
          (bit_or mask (2 ^ idx))
unfolding has_all
mark_mask-choose mask idx total h k =
    let e : idx % 16 ≡ idx = omega (arith, h) in
    let f : total % 16 ≡ total = omega (arith, k) in
    if_choose (has_bit mask 15) (has_all (bit_or mask (2 ^ (idx % 16))) (total % 16)) mask
      (bit_or mask (2 ^ (idx % 16)))
    ∙ ap
        (λ i.
          choose (has_bit mask 15) (has_all (bit_or mask (2 ^ i)) (total % 16)) mask
            (bit_or mask (2 ^ i)))
        e
    ∙ ap
        (λ t.
          choose (has_bit mask 15) (has_all (bit_or mask (2 ^ idx)) t) mask (bit_or mask (2 ^ idx)))
        f

mem-cons : (i x : ℕ) (xs : List ℕ) → mem i xs ≡ true → mem i (x ∷ xs) ≡ true
mem-cons i x xs h = ap (◌||◌ (x == i)) h ∙ or_true (x == i)

pub all_mem-cons : (n x : ℕ) (xs : List ℕ) → all_mem n xs ≡ true → all_mem n (x ∷ xs) ≡ true
all_mem-cons n x xs h = all_mem-true n (x ∷ xs) (λ i l. mem-cons i x xs (all_mem-elim n xs h i l))

only_new : (a b x y : Bool) → a ≡ x → b ≡ y → (x && not y) ≡ (a && not b)
only_new a b x y h k = ground (arith, h, k)

-- Parts before the last, and the last: the mask once it is marked.
marked_all :
    (total mask idx : ℕ) (seen : List ℕ) (last : Bool)
    → IsProgress total mask seen
    → has_all (bit_or mask (2 ^ idx)) total ≡ last
    → all_mem total (idx ∷ seen) ≡ last
marked_all total mask idx seen last inv e =
    sym (
      has_all-all_mem total (bit_or mask (2 ^ idx)) (idx ∷ seen)
        (marked_bit total mask idx seen inv.0))
    ∙ e

-- The result, and the progress that is left, in terms of `choose`.
choose_lem :
    (total mask idx : ℕ) (seen : List ℕ) (fired last : Bool)
    → total ≤ 15
    → idx < total
    → IsProgress total mask seen
    → has_bit mask 15 ≡ fired
    → has_all (bit_or mask (2 ^ idx)) total ≡ last
    → IsProgress total (choose fired last mask (bit_or mask (2 ^ idx))).0 (idx ∷ seen)
      × ((choose fired last mask (bit_or mask (2 ^ idx))).1
          ≡ (all_mem total (idx ∷ seen) && not (all_mem total seen)))
unfolding choose
choose_lem total mask idx seen true last h l inv d e =
    let full : all_mem total seen ≡ true = sym inv.1 ∙ d in
    let full' : all_mem total (idx ∷ seen) ≡ true = all_mem-cons total idx seen full in
    (
      (
        λ i l.
            inv.0 i l
            ∙ all_mem-elim total seen full i l
            ∙ sym (mem-cons i idx seen (all_mem-elim total seen full i l)),
        d ∙ sym full',
      ),
      only_new (all_mem total (idx ∷ seen)) (all_mem total seen) true true full' full,
    )
choose_lem total mask idx seen false true h l inv d e =
    let full : all_mem total (idx ∷ seen) ≡ true = marked_all total mask idx seen true inv e in
    let marked : ℕ = bit_or mask (2 ^ idx) in
    (
      (
        λ i k. has_bit-set_ne marked 15 i (omega arith) ∙ marked_bit total mask idx seen inv.0 i k,
        has_bit-set_self marked 15 ∙ sym full,
      ),
      only_new (all_mem total (idx ∷ seen)) (all_mem total seen) true false full (sym inv.1 ∙ d),
    )
choose_lem total mask idx seen false false h l inv d e =
    let open_yet : all_mem total (idx ∷ seen) ≡ false =
      marked_all total mask idx seen false inv e in
    (
      (
        λ i k. marked_bit total mask idx seen inv.0 i k,
        has_bit-set_ne mask idx 15 (omega arith) ∙ d ∙ sym open_yet,
      ),
      only_new (all_mem total (idx ∷ seen)) (all_mem total seen) false false open_yet
          (sym inv.1 ∙ d),
    )

pub mark_mask_lem :
    (total mask idx : ℕ) (seen : List ℕ)
    → total ≤ 15
    → idx < total
    → IsProgress total mask seen
    → IsProgress total (mark_mask mask idx total).0 (idx ∷ seen)
      × ((mark_mask mask idx total).1 ≡ (all_mem total (idx ∷ seen) && not (all_mem total seen)))
mark_mask_lem total mask idx seen h l inv =
    rw (mark_mask-choose mask idx total (omega arith) (omega arith)) (
      choose_lem total mask idx seen (has_bit mask 15) (has_all (bit_or mask (2 ^ idx)) total) h l
        inv refl refl)
