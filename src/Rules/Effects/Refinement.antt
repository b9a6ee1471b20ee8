-- ===== src/Rules/Effects/Refinement.antt =====
-- A rule's effects on the bits of a connection (`apply_effects` of src/rules.rs) against a table of
-- Booleans, one for each name.
use argus_ips.Base.{
  ℕ, ◌<◌, Bool, true, false, not, List, [], ◌∷◌, ◌≡◌, refl, ap, ◌∙◌, ◌==◌, if◌then◌else◌, arith,
}
use argus_ips.Rules.Effects.{
  Flowbit, FlowbitOp, set, unset, toggle, is_set, is_not_set, apply_effect, apply_effects,
}
use argus_ips.Rules.Flowbits
use argus_ips.Rules.Flowbits.{FlowBits}
use argus_ips.Rules.Flowbits.Bits.{IsSized, set_lem}

-- What an operation makes of the Boolean it names.
abbrev pub next_bit : FlowbitOp → Bool → Bool
next_bit set on = true
next_bit unset on = false
next_bit toggle on = not on
next_bit is_set on = on
next_bit is_not_set on = on

-- The Boolean named c after the effects, in their order.
abbrev pub next_bits : List Flowbit → ℕ → Bool → Bool
next_bits [] c on = on
next_bits (f ∷ fs) c on = next_bits fs c (if f.bit == c then next_bit f.op on else on)

-- Every effect names a bit of the registry, which has n names.
abbrev pub IsBelow : ℕ → List Flowbit → Type 0
IsBelow n [] = Unit
IsBelow n (f ∷ fs) = (f.bit < n) × IsBelow n fs

toggled :
    (b c : ℕ) (x y : Bool)
    → (b ≡ c → x ≡ y)
    → (if b == c then not x else y) ≡ (if b == c then not y else y)
toggled b c x y h = ground (arith, h)

kept : (b c : ℕ) (x : Bool) → x ≡ (if b == c then x else x)
kept b c x = ground arith

apply_effect_lem :
    (op : FlowbitOp) (b : ℕ) (bits : FlowBits) (n c : ℕ)
    → b < n
    → IsSized n bits.words
    → (Flowbits.is_set (apply_effect op b bits n) c
        ≡ (if b == c then next_bit op (Flowbits.is_set bits c) else Flowbits.is_set bits c))
      × IsSized n (apply_effect op b bits n).words
apply_effect_lem set b bits n c h sized = set_lem bits b c true n h sized
apply_effect_lem unset b bits n c h sized = set_lem bits b c false n h sized
apply_effect_lem toggle b bits n c h sized =
    let r = set_lem bits b c (not (Flowbits.is_set bits b)) n h sized in
    (
      r.0
          ∙ toggled b c (Flowbits.is_set bits b) (Flowbits.is_set bits c)
              (λ e. ap (Flowbits.is_set bits) e),
      r.1,
    )
apply_effect_lem is_set b bits n c h sized = (kept b c (Flowbits.is_set bits c), sized)
apply_effect_lem is_not_set b bits n c h sized = (kept b c (Flowbits.is_set bits c), sized)

-- When the words are sized for a registry of n names and every effect names a bit below n, then
-- after the effects each bit c, in the registry or not, reads as the Boolean that the effects on c
-- make of its earlier value, in order, and the words are still sized for n names.
pub apply_effects_lem :
    (fs : List Flowbit) (bits : FlowBits) (n c : ℕ)
    → IsBelow n fs
    → IsSized n bits.words
    → (Flowbits.is_set (apply_effects fs bits n) c ≡ next_bits fs c (Flowbits.is_set bits c))
      × IsSized n (apply_effects fs bits n).words
apply_effects_lem [] bits n c below sized = (refl, sized)
apply_effects_lem (f ∷ fs) bits n c below sized =
    let one = apply_effect_lem f.op f.bit bits n c below.0 sized in
    let rest = apply_effects_lem fs (apply_effect f.op f.bit bits n) n c below.1 one.1 in
    (rest.0 ∙ ap (next_bits fs c) one.0, rest.1)
