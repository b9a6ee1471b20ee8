-- ===== src/Rules/Address/Prefix.antt =====
-- The prefix comparison of src/rules.rs against the bits of the addresses, highest first.
use argus_ips.Address.{Bytes, bytes_eq}
use argus_ips.Base.{
  ℕ, zero, suc, ◌+◌, ◌-◌, ◌*◌, ◌/◌, ◌%◌, ◌^◌, ◌<◌, ◌≤◌, Bool, true, false, not, ◌&&◌, List, [], ◌∷◌,
  ◌++◌, take, get_or, length, length-append, ◌==◌, if◌then◌else◌, ◌≡◌, refl, sym, ap, ◌∙◌, arith,
  decide_eq, inl, inr, ◌⊎◌,
}
use native.Mathlib.Nat.{div-div-eq-div-mul}
use argus_ips.Rules.Address.{bytes_prefix_eq, high_bits}

-- The lowest n bits of a number, highest first.
abbrev pub bits_of : ℕ → ℕ → List ℕ
bits_of zero x = []
bits_of (suc n) x = bits_of n (x / 2) ++ (x % 2 ∷ [])

-- The bits of an address, in the order of its octets.
abbrev pub address_bits : Bytes → List ℕ
address_bits [] = []
address_bits (b ∷ bs) = bits_of 8 b ++ address_bits bs

abbrev pub AreOctets : Bytes → Type 0
AreOctets [] = Unit
AreOctets (b ∷ bs) = (b < 256) × AreOctets bs

length-bits_of : (n x : ℕ) → length (bits_of n x) ≡ n
length-bits_of zero x = refl
length-bits_of (suc n) x =
    omega (arith, length-append (bits_of n (x / 2)) (x % 2 ∷ []), length-bits_of n (x / 2))

bytes_eq-append :
    (u v r s : List ℕ)
    → length u ≡ length v
    → bytes_eq (u ++ r) (v ++ s) ≡ (bytes_eq u v && bytes_eq r s)
bytes_eq-append [] [] r s h = refl
bytes_eq-append [] (y ∷ v) r s h = absurd (omega (arith, h))
bytes_eq-append (x ∷ u) [] r s h = absurd (omega (arith, h))
bytes_eq-append (x ∷ u) (y ∷ v) r s h = ground (arith, bytes_eq-append u v r s (omega (arith, h)))

halves : (q r : ℕ) → ((q / 2 == r / 2) && ((q % 2 == r % 2) && true)) ≡ (q == r)
halves q r = ground arith

bytes_eq-bits_of :
    (n q r : ℕ) → q < 2 ^ n → r < 2 ^ n → bytes_eq (bits_of n q) (bits_of n r) ≡ (q == r)
bytes_eq-bits_of zero q r h k = ground (arith, h, k)
bytes_eq-bits_of (suc n) q r h k =
    let e : 2 ^ suc n ≡ 2 ^ n * 2 = omega arith in
    bytes_eq-append (bits_of n (q / 2)) (bits_of n (r / 2)) (q % 2 ∷ []) (r % 2 ∷ [])
      (length-bits_of n (q / 2) ∙ sym (length-bits_of n (r / 2)))
    ∙ ap (λ b. b && ((q % 2 == r % 2) && true))
        (bytes_eq-bits_of n (q / 2) (r / 2) (omega (arith, h, e)) (omega (arith, k, e)))
    ∙ halves q r

append_assoc : (u v w : List ℕ) → (u ++ v) ++ w ≡ u ++ (v ++ w)
append_assoc [] v w = refl
append_assoc (x ∷ u) v w = ap (◌∷◌ x) (append_assoc u v w)

take-append : (u r : List ℕ) → take (length u) (u ++ r) ≡ u
take-append [] r = refl
take-append (x ∷ u) r = ap (◌∷◌ x) (take-append u r)

take_bits_whole : (n x : ℕ) (r : List ℕ) → take n (bits_of n x ++ r) ≡ bits_of n x
take_bits_whole n x r =
    ap (λ k. take k (bits_of n x ++ r)) (sym (length-bits_of n x)) ∙ take-append (bits_of n x) r

div_one : (x : ℕ) → x / 2 ^ 0 ≡ x
div_one x = omega arith

quotient_step : (n k x : ℕ) → k ≤ n → x / 2 / 2 ^ (n - k) ≡ x / 2 ^ (suc n - k)
quotient_step n k x h =
    let e : suc n - k ≡ suc (n - k) = omega (arith, h) in
    let f : 2 * 2 ^ (n - k) ≡ 2 ^ suc (n - k) = omega arith in
    div-div-eq-div-mul x 2 (2 ^ (n - k)) ∙ ap (◌/◌ x) f ∙ ap (λ j. x / 2 ^ j) (sym e)

-- The first k bits of an octet are those of its quotient.
take_bits :
    (n k x : ℕ) (r : List ℕ) → k ≤ n → take k (bits_of n x ++ r) ≡ bits_of k (x / 2 ^ (n - k))
take_bits zero zero x r h = refl
take_bits zero (suc k) x r h = absurd (omega arith)
take_bits (suc n) k x r h = elim (decide_eq k (suc n)) [
  | inl e ↦
      let d : suc n - k ≡ 0 = omega (arith, e) in
      let z : x / 2 ^ (suc n - k) ≡ x = ap (λ j. x / 2 ^ j) d ∙ div_one x in
      ap (λ j. take j (bits_of (suc n) x ++ r)) e
      ∙ take_bits_whole (suc n) x r
      ∙ ap (λ j. bits_of j x) (sym e)
      ∙ ap (bits_of k) (sym z)
  | inr ne ↦
      ap (take k) (append_assoc (bits_of n (x / 2)) (x % 2 ∷ []) r)
      ∙ take_bits n k (x / 2) (x % 2 ∷ r) (omega arith)
      ∙ ap (bits_of k) (quotient_step n k x (omega arith))
]

high_bits_lt : (k x : ℕ) → k < 8 → x < 256 → high_bits x k < 2 ^ k
high_bits_lt zero x h l = omega arith
high_bits_lt (suc zero) x h l = omega arith
high_bits_lt (suc (suc zero)) x h l = omega arith
high_bits_lt (suc (suc (suc zero))) x h l = omega arith
high_bits_lt (suc (suc (suc (suc zero)))) x h l = omega arith
high_bits_lt (suc (suc (suc (suc (suc zero))))) x h l = omega arith
high_bits_lt (suc (suc (suc (suc (suc (suc zero)))))) x h l = omega arith
high_bits_lt (suc (suc (suc (suc (suc (suc (suc zero))))))) x h l = omega arith
high_bits_lt (suc (suc (suc (suc (suc (suc (suc (suc k)))))))) x h l = absurd (omega arith)

-- The comparison inside the octet at the end.
last_octet :
    (k x y : ℕ) (r s : List ℕ)
    → k < 8
    → x < 256
    → y < 256
    → bytes_eq (take k (bits_of 8 x ++ r)) (take k (bits_of 8 y ++ s))
      ≡ (high_bits x k == high_bits y k)
last_octet k x y r s h l m =
    ap (λ u. bytes_eq u (take k (bits_of 8 y ++ s))) (take_bits 8 k x r (omega arith))
    ∙ ap (bytes_eq (bits_of k (high_bits x k))) (take_bits 8 k y s (omega arith))
    ∙ bytes_eq-bits_of k (high_bits x k) (high_bits y k) (high_bits_lt k x h l)
        (high_bits_lt k y h m)

le_or_lt : (a b : ℕ) → (a ≤ b) ⊎ (b < a)
le_or_lt a b = omega arith

take_beyond : (u r : List ℕ) (k : ℕ) → take (length u + k) (u ++ r) ≡ u ++ take k r
take_beyond [] r k = ap (λ j. take j r) (omega arith)
take_beyond (x ∷ u) r k =
    let e : length (x ∷ u) + k ≡ suc (length u + k) = omega arith in
    ap (λ j. take j (x ∷ u ++ r)) e ∙ ap (◌∷◌ x) (take_beyond u r k)

whole_octet :
    (x y k : ℕ) (r s : List ℕ)
    → x < 256
    → y < 256
    → bytes_eq (take (8 + k) (bits_of 8 x ++ r)) (take (8 + k) (bits_of 8 y ++ s))
      ≡ ((x == y) && bytes_eq (take k r) (take k s))
whole_octet x y k r s h l =
    ap (λ u. bytes_eq u (take (8 + k) (bits_of 8 y ++ s))) (take_beyond (bits_of 8 x) r k)
    ∙ ap (bytes_eq (bits_of 8 x ++ take k r)) (take_beyond (bits_of 8 y) s k)
    ∙ bytes_eq-append (bits_of 8 x) (bits_of 8 y) (take k r) (take k s) refl
    ∙ ap (λ b. b && bytes_eq (take k r) (take k s)) (bytes_eq-bits_of 8 x y h l)

-- The code's comparison from the octet at which the prefix ends.
abbrev compare_from : Bytes → Bytes → ℕ → ℕ → Bool
compare_from a b full_bytes rem =
    if not (bytes_eq (take full_bytes a) (take full_bytes b))
    then false
    else if rem == 0
    then true
    else high_bits (get_or a full_bytes 0) rem == high_bits (get_or b full_bytes 0) rem

prefix_at :
    (a b : Bytes) (bits full rem : ℕ)
    → bits / 8 ≡ full
    → bits % 8 ≡ rem
    → bytes_prefix_eq a b bits ≡ compare_from a b full rem
prefix_at a b bits full rem e f =
    ap (λ n. compare_from a b n (bits % 8)) e ∙ ap (compare_from a b full) f

no_bits : (k u v : ℕ) → (k ≡ 0 → u ≡ v) → (if k == 0 then true else u == v) ≡ (u == v)
no_bits k u v h = ground (arith, h)

prefix-short :
    (x y k : ℕ) (a b : Bytes)
    → k < 8
    → x < 256
    → y < 256
    → bytes_prefix_eq (x ∷ a) (y ∷ b) k ≡ (high_bits x k == high_bits y k)
prefix-short x y k a b h l m =
    prefix_at (x ∷ a) (y ∷ b) k 0 k (omega (arith, h)) (omega (arith, h))
    ∙ no_bits k (high_bits x k) (high_bits y k)
        (λ e. ap (high_bits x) e ∙ omega (arith, l, m) ∙ sym (ap (high_bits y) e))

octet_first :
    (p q r : Bool) (s : Bool)
    → (if not (p && q) then false else if r then true else s)
      ≡ (p && (if not q then false else if r then true else s))
octet_first p q r s = ground arith

prefix-long :
    (x y k : ℕ) (a b : Bytes)
    → bytes_prefix_eq (x ∷ a) (y ∷ b) (8 + k) ≡ ((x == y) && bytes_prefix_eq a b k)
prefix-long x y k a b =
    prefix_at (x ∷ a) (y ∷ b) (8 + k) (suc (k / 8)) (k % 8) (omega arith) (omega arith)
    ∙ octet_first (x == y) (bytes_eq (take (k / 8) a) (take (k / 8) b)) (k % 8 == 0)
        (high_bits (get_or a (k / 8) 0) (k % 8) == high_bits (get_or b (k / 8) 0) (k % 8))

-- For two addresses of the same family, of octets below 256, and a prefix no longer than they are:
-- the code's comparison of octets and of a masked octet at the end is the comparison of the first
-- `bits` bits.
pub bytes_prefix_eq_lem :
    (a b : Bytes) (bits : ℕ)
    → AreOctets a
    → AreOctets b
    → length a ≡ length b
    → bits ≤ 8 * length a
    → bytes_prefix_eq a b bits ≡ bytes_eq (take bits (address_bits a)) (take bits (address_bits b))
bytes_prefix_eq_lem [] [] bits p q h l =
    let e : bits ≡ 0 = omega (arith, l) in
    ap (bytes_prefix_eq [] []) e ∙ ap (λ n. bytes_eq (take n []) (take n [])) (sym e)
bytes_prefix_eq_lem [] (y ∷ b) bits p q h l = absurd (omega (arith, h))
bytes_prefix_eq_lem (x ∷ a) [] bits p q h l = absurd (omega (arith, h))
bytes_prefix_eq_lem (x ∷ a) (y ∷ b) bits p q h l = elim (le_or_lt 8 bits) [
  | inl k ↦
      let e : bits ≡ 8 + (bits - 8) = omega (arith, k) in
      let rest =
        bytes_prefix_eq_lem a b (bits - 8) p.1 q.1 (omega (arith, h)) (omega (arith, l, k)) in
      ap (bytes_prefix_eq (x ∷ a) (y ∷ b)) e
      ∙ prefix-long x y (bits - 8) a b
      ∙ ap (◌&&◌ (x == y)) rest
      ∙ sym (whole_octet x y (bits - 8) (address_bits a) (address_bits b) p.0 q.0)
      ∙ ap (λ n. bytes_eq (take n (address_bits (x ∷ a))) (take n (address_bits (y ∷ b)))) (sym e)
  | inr k ↦
      prefix-short x y bits a b k p.0 q.0
      ∙ sym (last_octet bits x y (address_bits a) (address_bits b) k p.0 q.0)
]
