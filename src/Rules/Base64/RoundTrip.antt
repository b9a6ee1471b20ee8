-- ===== src/Rules/Base64/RoundTrip.antt =====
-- The decoder of src/rules.rs against the encoder of RFC 4648, with its padding.
use argus_ips.Address.{Bytes}
use argus_ips.Base.{
  ℕ, ◌+◌, ◌-◌, ◌*◌, ◌/◌, ◌%◌, ◌^◌, ◌<◌, [], ◌∷◌, ltb, leb, ◌==◌, if◌then◌else◌, ◌≡◌, refl, ap, ◌∙◌,
  arith,
}
use argus_ips.Rules.Address.Prefix.{AreOctets}
use argus_ips.Rules.Base64.{value, padding, other, symbol, decode_from, base64_decode}

-- The character of a number below 64, in the standard alphabet.
abbrev pub character : ℕ → ℕ
character v =
    if ltb v 26
    then 65 + v
    else if ltb v 52
    then 97 + (v - 26)
    else if ltb v 62
    then 48 + (v - 52)
    else if v == 62
    then 43
    else 47

abbrev pub encode : Bytes → Bytes
encode [] = []
encode (a ∷ []) = character (a / 4) ∷ character (a % 4 * 16) ∷ 61 ∷ 61 ∷ []
encode (a ∷ b ∷ []) =
    character (a / 4) ∷ character (a % 4 * 16 + b / 16) ∷ character (b % 16 * 4) ∷ 61 ∷ []
encode (a ∷ b ∷ c ∷ bs) =
    character (a / 4)
    ∷ character (a % 4 * 16 + b / 16)
    ∷ character (b % 16 * 4 + c / 64)
    ∷ character (c % 64)
    ∷ encode bs

symbol-character : (v : ℕ) → v < 64 → symbol (character v) ≡ value v
symbol-character v h = ground (arith, h)

-- One round of the loop on a character of the alphabet.
abbrev after_value : ℕ → ℕ → ℕ → Bytes → Bytes
after_value acc bits v bs =
    let acc' : ℕ = (acc * 64 + v) % 2 ^ 32 in
    let bits' : ℕ = bits + 6 in
    let more = decode_from acc' bits' bs in
    let rest = decode_from (acc' % 2 ^ (bits' - 8)) (bits' - 8) bs in
    if leb 8 bits' then (acc' / 2 ^ (bits' - 8) % 256) ∷ rest else more

round_value :
    (acc bits v : ℕ) (bs : Bytes)
    → v < 64
    → decode_from acc bits (character v ∷ bs) ≡ after_value acc bits v bs
round_value acc bits v bs h =
    ap
      (λ s. elim s [
        | padding ↦ []
        | other ↦ decode_from acc bits bs
        | value v ↦ after_value acc bits v bs
      ])
      (symbol-character v h)

first_round :
    (v : ℕ) (bs : Bytes) → v < 64 → decode_from 0 0 (character v ∷ bs) ≡ decode_from v 6 bs
first_round v bs h = round_value 0 0 v bs h ∙ ap (λ a. decode_from a 6 bs) (omega (arith, h))

second_round :
    (u v : ℕ) (bs : Bytes)
    → u < 64
    → v < 64
    → decode_from u 6 (character v ∷ bs) ≡ (u * 4 + v / 16) ∷ decode_from (v % 16) 4 bs
second_round u v bs h k =
    let e : (u * 64 + v) % 2 ^ 32 / 2 ^ 4 % 256 ≡ u * 4 + v / 16 = omega (arith, h, k) in
    let f : (u * 64 + v) % 2 ^ 32 % 2 ^ 4 ≡ v % 16 = omega (arith, h, k) in
    round_value u 6 v bs k
    ∙ ap (λ x. x ∷ decode_from ((u * 64 + v) % 2 ^ 32 % 2 ^ 4) 4 bs) e
    ∙ ap (λ a. (u * 4 + v / 16) ∷ decode_from a 4 bs) f

third_round :
    (u v : ℕ) (bs : Bytes)
    → u < 16
    → v < 64
    → decode_from u 4 (character v ∷ bs) ≡ (u * 16 + v / 4) ∷ decode_from (v % 4) 2 bs
third_round u v bs h k =
    let e : (u * 64 + v) % 2 ^ 32 / 2 ^ 2 % 256 ≡ u * 16 + v / 4 = omega (arith, h, k) in
    let f : (u * 64 + v) % 2 ^ 32 % 2 ^ 2 ≡ v % 4 = omega (arith, h, k) in
    round_value u 4 v bs k
    ∙ ap (λ x. x ∷ decode_from ((u * 64 + v) % 2 ^ 32 % 2 ^ 2) 2 bs) e
    ∙ ap (λ a. (u * 16 + v / 4) ∷ decode_from a 2 bs) f

fourth_round :
    (u v : ℕ) (bs : Bytes)
    → u < 4
    → v < 64
    → decode_from u 2 (character v ∷ bs) ≡ (u * 64 + v) ∷ decode_from 0 0 bs
fourth_round u v bs h k =
    let e : (u * 64 + v) % 2 ^ 32 / 2 ^ 0 % 256 ≡ u * 64 + v = omega (arith, h, k) in
    let f : (u * 64 + v) % 2 ^ 32 % 2 ^ 0 ≡ 0 = omega (arith, h, k) in
    round_value u 2 v bs k
    ∙ ap (λ x. x ∷ decode_from ((u * 64 + v) % 2 ^ 32 % 2 ^ 0) 0 bs) e
    ∙ ap (λ a. (u * 64 + v) ∷ decode_from a 0 bs) f

-- The first octet takes two characters, of which the second has u for its lowest four bits.
first_octet :
    (a u : ℕ) (bs : Bytes)
    → a < 256
    → u < 16
    → decode_from 0 0 (character (a / 4) ∷ character (a % 4 * 16 + u) ∷ bs) ≡ a ∷ decode_from u 4 bs
first_octet a u bs h k =
    let e : a / 4 * 4 + (a % 4 * 16 + u) / 16 ≡ a = omega (arith, k) in
    let f : (a % 4 * 16 + u) % 16 ≡ u = omega (arith, k) in
    first_round (a / 4) (character (a % 4 * 16 + u) ∷ bs) (omega (arith, h))
    ∙ second_round (a / 4) (a % 4 * 16 + u) bs (omega (arith, h)) (omega (arith, k))
    ∙ ap (λ x. x ∷ decode_from ((a % 4 * 16 + u) % 16) 4 bs) e
    ∙ ap (λ x. a ∷ decode_from x 4 bs) f

second_octet :
    (b u : ℕ) (bs : Bytes)
    → b < 256
    → u < 4
    → decode_from (b / 16) 4 (character (b % 16 * 4 + u) ∷ bs) ≡ b ∷ decode_from u 2 bs
second_octet b u bs h k =
    let e : b / 16 * 16 + (b % 16 * 4 + u) / 4 ≡ b = omega (arith, k) in
    let f : (b % 16 * 4 + u) % 4 ≡ u = omega (arith, k) in
    third_round (b / 16) (b % 16 * 4 + u) bs (omega (arith, h)) (omega (arith, k))
    ∙ ap (λ x. x ∷ decode_from ((b % 16 * 4 + u) % 4) 2 bs) e
    ∙ ap (λ x. b ∷ decode_from x 2 bs) f

third_octet :
    (c : ℕ) (bs : Bytes)
    → c < 256
    → decode_from (c / 64) 2 (character (c % 64) ∷ bs) ≡ c ∷ decode_from 0 0 bs
third_octet c bs h =
    let e : c / 64 * 64 + c % 64 ≡ c = omega arith in
    fourth_round (c / 64) (c % 64) bs (omega (arith, h)) (omega arith)
    ∙ ap (λ x. x ∷ decode_from 0 0 bs) e

no_low_bits : (n : ℕ) (bs : Bytes) → character n ∷ bs ≡ character (n + 0) ∷ bs
no_low_bits n bs = let e : n ≡ n + 0 = omega arith in ap (λ m. character m ∷ bs) e

-- Decoding the standard encoding of octets gives the octets back, with the padding at the end or not
-- needed.
pub base64_decode-encode : (bs : Bytes) → AreOctets bs → base64_decode (encode bs) ≡ bs
base64_decode-encode [] h = refl
base64_decode-encode (a ∷ []) h =
    ap (λ cs. decode_from 0 0 (character (a / 4) ∷ cs)) (no_low_bits (a % 4 * 16) (61 ∷ 61 ∷ []))
    ∙ first_octet a 0 (61 ∷ 61 ∷ []) h.0 (omega arith)
base64_decode-encode (a ∷ b ∷ []) h =
    first_octet a (b / 16) (character (b % 16 * 4) ∷ 61 ∷ []) h.0 (omega (arith, h.1.0))
    ∙ ap (λ cs. a ∷ decode_from (b / 16) 4 cs) (no_low_bits (b % 16 * 4) (61 ∷ []))
    ∙ ap (◌∷◌ a) (second_octet b 0 (61 ∷ []) h.1.0 (omega arith))
base64_decode-encode (a ∷ b ∷ c ∷ bs) h =
    first_octet a (b / 16) (character (b % 16 * 4 + c / 64) ∷ character (c % 64) ∷ encode bs) h.0
      (omega (arith, h.1.0))
    ∙ ap (◌∷◌ a)
        (second_octet b (c / 64) (character (c % 64) ∷ encode bs) h.1.0 (omega (arith, h.1.1.0)))
    ∙ ap (λ r. a ∷ b ∷ r) (third_octet c (encode bs) h.1.1.0)
    ∙ ap (λ r. a ∷ b ∷ c ∷ r) (base64_decode-encode bs h.1.1.1)
