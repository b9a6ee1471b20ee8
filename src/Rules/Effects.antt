-- ===== src/Rules/Effects.antt =====
-- `Flowbit`, `apply_effects` and `flowbits_hold` of src/rules.rs: how a rule reads and writes the bits.
pub mod Refinement
use argus_ips.Base.{
  ℕ, Bool, true, false, not, ◌&&◌, List, [], ◌∷◌, Option, none, some, if◌then◌else◌,
}
use argus_ips.Rules.Flowbits.{FlowBits}
use argus_ips.Rules.Flowbits

pub data FlowbitOp : Type 0 where
  set unset toggle is_set is_not_set : FlowbitOp

pub record Flowbit : Type 0 where
  pub op : FlowbitOp
  pub bit : ℕ

-- One round of `apply_effects`.
abbrev pub apply_effect : FlowbitOp → ℕ → FlowBits → ℕ → FlowBits
apply_effect set b bits n = Flowbits.set bits b true n
apply_effect unset b bits n = Flowbits.set bits b false n
apply_effect toggle b bits n = Flowbits.toggle bits b n
apply_effect is_set b bits n = bits
apply_effect is_not_set b bits n = bits

abbrev pub apply_effects : List Flowbit → FlowBits → ℕ → FlowBits
apply_effects [] bits n = bits
apply_effects (f ∷ fs) bits n = apply_effects fs (apply_effect f.op f.bit bits n) n

-- `bits.is_some_and(|b| b.is_set(bit))`
abbrev pub flow_has : Option FlowBits → ℕ → Bool
flow_has none b = false
flow_has (some bits) b = Flowbits.is_set bits b

-- One condition of `flowbits_hold`.
abbrev pub condition : FlowbitOp → ℕ → Option FlowBits → Bool
condition is_set b bits = flow_has bits b
condition is_not_set b bits = not (flow_has bits b)
condition set b bits = true
condition unset b bits = true
condition toggle b bits = true

abbrev pub flowbits_hold : List Flowbit → Option FlowBits → Bool
flowbits_hold [] bits = true
flowbits_hold (f ∷ fs) bits = condition f.op f.bit bits && flowbits_hold fs bits

abbrev pub writes : FlowbitOp → Bool
writes set = true
writes unset = true
writes toggle = true
writes is_set = false
writes is_not_set = false

abbrev pub sets_flowbits : List Flowbit → Bool
sets_flowbits [] = false
sets_flowbits (f ∷ fs) = if writes f.op then true else sets_flowbits fs
