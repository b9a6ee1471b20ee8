-- ===== src/Rules/Prefilter/Longest.antt =====
-- The longest literal of a rule (src/rules.rs) is one of its literals.
use argus_ips.Address.{Bytes}
use argus_ips.Base.{
  suc, ◌≤◌, List, [], ◌∷◌, Option, none, some, some_inj, length, ltb, if_true, if_false,
  if◌then◌else◌, ◌≡◌, sym, ap, ◌∙◌, inl, inr, ◌⊎◌, Bool-cases,
}
use argus_ips.Rules.Prefilter.{longest}

-- A list has the literal.
abbrev pub IsAmong : Bytes → List Bytes → Type 0
IsAmong lit [] = suc 0 ≤ 0
IsAmong lit (l ∷ ls) = (lit ≡ l) ⊎ IsAmong lit ls

abbrev longer : Bytes → Option Bytes → Option Bytes
longer l o = elim o [ none ↦ some l | some m ↦ some (if ltb (length m) (length l) then l else m) ]

longer-cases :
    (l : Bytes) (o : Option Bytes) (lit : Bytes)
    → longer l o ≡ some lit
    → (lit ≡ l) ⊎ (o ≡ some lit)
longer-cases l none lit h = inl (sym (some_inj h))
longer-cases l (some m) lit h = elim (Bool-cases (ltb (length m) (length l))) [
  | inl t ↦ inl (sym (some_inj h) ∙ if_true _ _ t)
  | inr t ↦ inr (ap some (sym (if_false _ _ t) ∙ some_inj h))
]

pub longest-IsAmong : (ls : List Bytes) (lit : Bytes) → longest ls ≡ some lit → IsAmong lit ls
longest-IsAmong [] lit h = absurd (cc)
longest-IsAmong (l ∷ ls) lit h = elim (longer-cases l (longest ls) lit h) [
  | inl q ↦ inl q
  | inr q ↦ inr (longest-IsAmong ls lit q)
]
