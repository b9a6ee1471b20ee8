-- ===== src/Rules/Flowbits/Bits.antt =====
-- The bits of `FlowBits` (src/rules.rs) as a function of their number, and what the operations and
-- a rule's effects do to it.
use argus_ips.Base.{
  ℕ, zero, suc, ◌+◌, ◌/◌, ◌%◌, ◌^◌, ◌<◌, max, has_bit, Bool, true, false, not, List, [], ◌∷◌,
  Option, none, some, length, get_elem?, set as list_set, replicate, ◌≡◌, ◌≢◌, refl, ap, ◌∙◌, sym,
  inl, inr, ◌⊎◌, length-set, length-replicate, ◌==◌, decide_eq, if_same, if_differ, if◌then◌else◌,
  arith, Option-cases, has_bit-set_self, has_bit-set_ne, has_bit-clear_self, has_bit-clear_ne,
  and_zero_left,
}
use argus_ips.Rules.Flowbits.{FlowBits, write_bit, write_words, fresh_words}
use argus_ips.Rules.Flowbits

-- A word list that is there has the length that `set` gives it for n names.
abbrev pub IsSized : ℕ → Option (List ℕ) → Type 0
IsSized n none = Unit
IsSized n (some ws) = length ws ≡ max ((n + 63) / 64) 1

-- `is_set` on words that are there, and on the word found.
word_bit : Option ℕ → ℕ → Bool
word_bit o b = elim o [ none ↦ false | some word ↦ has_bit word b ]

has_bit-write_self : (w b : ℕ) (on : Bool) → b < 64 → has_bit (write_bit w b on) b ≡ on
has_bit-write_self w b true h = has_bit-set_self w b
has_bit-write_self w b false h = has_bit-clear_self 64 w b h

has_bit-write_ne :
    (w b c : ℕ) (on : Bool) → b < 64 → c < 64 → b ≢ c → has_bit (write_bit w b on) c ≡ has_bit w c
has_bit-write_ne w b c true h k ne = has_bit-set_ne w b c ne
has_bit-write_ne w b c false h k ne = has_bit-clear_ne 64 w b c h k ne

module _ {ℓ} {A : Type ℓ} where
  get_elem?-set_self :
      (xs : List A) (i : ℕ) (v : A) → i < length xs → get_elem? (list_set xs i v) i ≡ some v
  get_elem?-set_self [] i v h = absurd (omega arith)
  get_elem?-set_self (x ∷ xs) zero v h = refl
  get_elem?-set_self (x ∷ xs) (suc i) v h = get_elem?-set_self xs i v (omega arith)

  get_elem?-set_ne :
      (xs : List A) (i j : ℕ) (v : A) → i ≢ j → get_elem? (list_set xs i v) j ≡ get_elem? xs j
  get_elem?-set_ne [] i j v h = refl
  get_elem?-set_ne (x ∷ xs) zero zero v h = absurd (h refl)
  get_elem?-set_ne (x ∷ xs) zero (suc j) v h = refl
  get_elem?-set_ne (x ∷ xs) (suc i) zero v h = refl
  get_elem?-set_ne (x ∷ xs) (suc i) (suc j) v h = get_elem?-set_ne xs i j v (λ e. h (ap suc e))

  get_elem?-in_range : (xs : List A) (i : ℕ) → i < length xs → (x : A) × (get_elem? xs i ≡ some x)
  get_elem?-in_range [] i h = absurd (omega arith)
  get_elem?-in_range (x ∷ xs) zero h = (x, refl)
  get_elem?-in_range (x ∷ xs) (suc i) h = get_elem?-in_range xs i (omega arith)

-- `is_set` on words that are there.
words_bit : List ℕ → ℕ → Bool
words_bit ws c = word_bit (get_elem? ws (c / 64)) (c % 64)

write_words-some :
    (ws : List ℕ) (b : ℕ) (on : Bool) (word : ℕ)
    → get_elem? ws (b / 64) ≡ some word
    → write_words ws b on ≡ list_set ws (b / 64) (write_bit word (b % 64) on)
write_words-some ws b on word e = rw (write_words, e) refl

words_bit-some :
    (ws : List ℕ) (c word : ℕ)
    → get_elem? ws (c / 64) ≡ some word
    → words_bit ws c ≡ has_bit word (c % 64)
unfolding words_bit word_bit
words_bit-some ws c word e = ap (λ o. word_bit o (c % 64)) e

-- The write to a word that holds, read back at the same number and at another one.
read_back_self :
    (ws : List ℕ) (b word : ℕ) (on : Bool)
    → b / 64 < length ws
    → words_bit (list_set ws (b / 64) (write_bit word (b % 64) on)) b ≡ on
read_back_self ws b word on h =
    words_bit-some (list_set ws (b / 64) (write_bit word (b % 64) on)) b
      (write_bit word (b % 64) on) (get_elem?-set_self ws (b / 64) (write_bit word (b % 64) on) h)
    ∙ has_bit-write_self word (b % 64) on (omega arith)

-- Another word.
read_back_elsewhere :
    (ws : List ℕ) (b c v : ℕ)
    → b / 64 ≢ c / 64
    → words_bit (list_set ws (b / 64) v) c ≡ words_bit ws c
unfolding words_bit
read_back_elsewhere ws b c v q =
    ap (λ o. word_bit o (c % 64)) (get_elem?-set_ne ws (b / 64) (c / 64) v q)

-- Another bit of the same word.
read_back_beside :
    (ws : List ℕ) (b c word : ℕ) (on : Bool)
    → get_elem? ws (b / 64) ≡ some word
    → b / 64 < length ws
    → b ≢ c
    → b / 64 ≡ c / 64
    → words_bit (list_set ws (b / 64) (write_bit word (b % 64) on)) c ≡ words_bit ws c
read_back_beside ws b c word on e h ne q =
    let v : ℕ = write_bit word (b % 64) on in
    let f : get_elem? ws (c / 64) ≡ some word = sym (ap (get_elem? ws) q) ∙ e in
    let g : get_elem? (list_set ws (b / 64) v) (c / 64) ≡ some v =
      sym (ap (get_elem? (list_set ws (b / 64) v)) q) ∙ get_elem?-set_self ws (b / 64) v h in
    words_bit-some (list_set ws (b / 64) v) c v g
    ∙ has_bit-write_ne word (b % 64) (c % 64) on (omega arith) (omega arith)
        (λ r. ne (omega (arith, q, r)))
    ∙ sym (words_bit-some ws c word f)

read_back_ne :
    (ws : List ℕ) (b c word : ℕ) (on : Bool)
    → get_elem? ws (b / 64) ≡ some word
    → b / 64 < length ws
    → b ≢ c
    → words_bit (list_set ws (b / 64) (write_bit word (b % 64) on)) c ≡ words_bit ws c
read_back_ne ws b c word on e h ne = elim (decide_eq (b / 64) (c / 64)) [
  | inl q ↦ read_back_beside ws b c word on e h ne q
  | inr q ↦ read_back_elsewhere ws b c (write_bit word (b % 64) on) q
]

read_back :
    (ws : List ℕ) (b c word : ℕ) (on : Bool)
    → get_elem? ws (b / 64) ≡ some word
    → b / 64 < length ws
    → words_bit (list_set ws (b / 64) (write_bit word (b % 64) on)) c
      ≡ (if b == c then on else words_bit ws c)
read_back ws b c word on e h = elim (decide_eq b c) [
  | inl q ↦
      ap (words_bit (list_set ws (b / 64) (write_bit word (b % 64) on))) (sym q)
      ∙ read_back_self ws b word on h
      ∙ sym (if_same b c _ _ q)
  | inr q ↦ read_back_ne ws b c word on e h q ∙ sym (if_differ b c _ _ q)
]

words_bit-write :
    (ws : List ℕ) (b c : ℕ) (on : Bool)
    → b / 64 < length ws
    → words_bit (write_words ws b on) c ≡ (if b == c then on else words_bit ws c)
words_bit-write ws b c on h =
    let (word, e) = get_elem?-in_range ws (b / 64) h in
    ap (λ us. words_bit us c) (write_words-some ws b on word e) ∙ read_back ws b c word on e h

get_elem?-zeros :
    (k i : ℕ)
    → (get_elem? {A = ℕ} (replicate k 0) i ≡ none) ⊎ (get_elem? {A = ℕ} (replicate k 0) i ≡ some 0)
get_elem?-zeros zero i = inl refl
get_elem?-zeros (suc k) zero = inr refl
get_elem?-zeros (suc k) (suc i) = get_elem?-zeros k i

zeros_bit : (k c : ℕ) → words_bit (replicate k 0) c ≡ false
unfolding words_bit word_bit
zeros_bit k c = elim (get_elem?-zeros k (c / 64)) [
  | inl e ↦ ap (λ o. word_bit o (c % 64)) e
  | inr e ↦ ap (λ o. word_bit o (c % 64)) e ∙ ap (λ n. not (n == 0)) (and_zero_left (2 ^ (c % 64)))
]

fresh_words-in_range : (b n : ℕ) → b < n → b / 64 < length (fresh_words n)
fresh_words-in_range b n h = omega (arith, length-replicate {A = ℕ} (max ((n + 63) / 64) 1) 0)

length-write_words : (ws : List ℕ) (b : ℕ) (on : Bool) → length (write_words ws b on) ≡ length ws
length-write_words ws b on = elim (Option-cases (get_elem? ws (b / 64))) [
  | inl e ↦ rw (write_words, e) refl
  | inr (word, e) ↦
      ap length (write_words-some ws b on word e)
      ∙ length-set ws (b / 64) (write_bit word (b % 64) on)
]

set_words :
    (f : FlowBits) (o : Option (List ℕ)) (b c : ℕ) (on : Bool) (n : ℕ)
    → b < n
    → IsSized n o
    → (Flowbits.is_set (Flowbits.set (record f { words = o }) b on n) c
        ≡ (if b == c then on else Flowbits.is_set (record f { words = o }) c))
      × IsSized n (Flowbits.set (record f { words = o }) b on n).words
unfolding words_bit word_bit
set_words f none b c true n h sized = (
  words_bit-write (fresh_words n) b c true (fresh_words-in_range b n h)
      ∙ ap (λ r. if b == c then true else r) (zeros_bit (max ((n + 63) / 64) 1) c),
  length-write_words (fresh_words n) b true ∙ length-replicate {A = ℕ} (max ((n + 63) / 64) 1) 0,
)
set_words f none b c false n h sized = (ground arith, sized)
set_words f (some ws) b c on n h sized =
    (words_bit-write ws b c on (omega (arith, sized)), length-write_words ws b on ∙ sized)

-- Writing a bit that has a name changes that bit and no other, and keeps the words' size.
pub set_lem :
    (f : FlowBits) (b c : ℕ) (on : Bool) (n : ℕ)
    → b < n
    → IsSized n f.words
    → (Flowbits.is_set (Flowbits.set f b on n) c ≡ (if b == c then on else Flowbits.is_set f c))
      × IsSized n (Flowbits.set f b on n).words
set_lem f b c on n h sized = set_words f f.words b c on n h sized
