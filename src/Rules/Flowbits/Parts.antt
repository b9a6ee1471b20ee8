-- ===== src/Rules/Flowbits/Parts.antt =====
-- `mark_part` of src/rules.rs over the whole life of a connection, against a plain record of the
-- calls that came before.
mod Mask
mod Storage
pub mod Once
use argus_ips.Base.{
  mem, ℕ, zero, suc, ◌<◌, ◌≤◌, ◌^◌, Bool, true, false, not, ◌&&◌, List, [], ◌∷◌, Option, none, some,
  ◌>>=◌, has_bit, ◌==◌, and_zero_left, decide_eq, if_same, if_differ, if◌then◌else◌, ◌≡◌, ◌≢◌, refl,
  sym, ap, ◌∙◌, inl, inr, arith,
}
use mathlib.Core.Path.{subst}
use argus_ips.Rules.Flowbits.{FlowBits, new, mark_part, mark_mask}
use Mask.{all_mem, IsProgress, mark_mask_lem}
use Storage.{progress, IsStoredIn, mark_part-progress}

-- The results of calls on one flow, in order, each with a rule's id and a part; `totals` has the
-- number of parts of each rule and k is the number of rules. A panic gives `none`.
abbrev pub mark_all : (ℕ → ℕ) → ℕ → FlowBits → List (ℕ × ℕ) → Option (List Bool)
mark_all totals k f [] = some []
mark_all totals k f ((id, idx) ∷ calls) =
    mark_part f id idx (totals id) k >>= λ r. mark_all totals k r.0 calls >>= λ rs. some (r.1 ∷ rs)

-- The parts of a rule among calls.
abbrev pub parts_of : ℕ → List (ℕ × ℕ) → List ℕ
parts_of id [] = []
parts_of id ((c, idx) ∷ calls) =
    let rest = parts_of id calls in if c == id then idx ∷ rest else rest

-- A call announces its rule when the part completes the rule and the earlier calls had not.
abbrev pub completes : ℕ → List ℕ → ℕ → Bool
completes total seen idx = all_mem total (idx ∷ seen) && not (all_mem total seen)

abbrev pub announce : (ℕ → ℕ) → List (ℕ × ℕ) → List (ℕ × ℕ) → List Bool
announce totals earlier [] = []
announce totals earlier ((id, idx) ∷ calls) =
    completes (totals id) (parts_of id earlier) idx ∷ announce totals ((id, idx) ∷ earlier) calls

-- Every call names a rule below k and one of its parts.
abbrev pub IsCalls : (ℕ → ℕ) → ℕ → List (ℕ × ℕ) → Type 0
IsCalls totals k [] = Unit
IsCalls totals k ((id, idx) ∷ calls) = (id < k) × (idx < totals id) × IsCalls totals k calls

IsProgress-cong :
    (total m m' : ℕ) (seen seen' : List ℕ)
    → m' ≡ m
    → seen' ≡ seen
    → IsProgress total m seen
    → IsProgress total m' seen'
IsProgress-cong total m m' seen seen' e q h =
    subst (λ x. IsProgress total x seen') (sym e) (subst (IsProgress total m) (sym q) h)

next_progress :
    (totals : ℕ → ℕ) (f f' : FlowBits) (earlier : List (ℕ × ℕ)) (id idx c : ℕ)
    → totals id ≤ 15
    → idx < totals id
    → ((c : ℕ) → IsProgress (totals c) (progress f c) (parts_of c earlier))
    → (progress f' c
        ≡ (if id == c then (mark_mask (progress f id) idx (totals id)).0 else progress f c))
    → IsProgress (totals c) (progress f' c) (parts_of c ((id, idx) ∷ earlier))
next_progress totals f f' earlier id idx c h l inv e = elim (decide_eq id c) [
  | inl q ↦
      let m : ℕ = (mark_mask (progress f id) idx (totals id)).0 in
      IsProgress-cong (totals c) m (progress f' c) (idx ∷ parts_of c earlier) _
        (e ∙ if_same id c _ _ q) (if_same id c _ _ q)
        (subst (λ j. IsProgress (totals j) m (idx ∷ parts_of j earlier)) q
          (mark_mask_lem (totals id) (progress f id) idx (parts_of id earlier) h l (inv id)).0)
  | inr q ↦
      IsProgress-cong (totals c) (progress f c) (progress f' c) (parts_of c earlier) _
        (e ∙ if_differ id c _ _ q) (if_differ id c _ _ q) (inv c)
]

mark_all-announce :
    (totals : ℕ → ℕ) (k : ℕ) (f : FlowBits) (earlier calls : List (ℕ × ℕ))
    → ((c : ℕ) → totals c ≤ 15)
    → IsCalls totals k calls
    → IsStoredIn k f.dense f.partials
    → ((c : ℕ) → IsProgress (totals c) (progress f c) (parts_of c earlier))
    → mark_all totals k f calls ≡ some (announce totals earlier calls)
mark_all-announce totals k f earlier [] h cs s inv = refl
mark_all-announce totals k f earlier ((id, idx) ∷ calls) h cs s inv =
    let m = mark_part-progress f f.dense id idx (totals id) k cs.0 s in
    let r =
      mark_mask_lem (totals id) (progress f id) idx (parts_of id earlier) (h id) cs.1 (inv id) in
    let rest =
      mark_all-announce totals k m.0 ((id, idx) ∷ earlier) calls h cs.2 m.3
        (λ c. next_progress totals f m.0 earlier id idx c (h id) cs.1 inv (m.2 c)) in
    ap (λ o. o >>= λ r. mark_all totals k r.0 calls >>= λ rs. some (r.1 ∷ rs)) m.1
    ∙ ap (λ o. o >>= λ rs. some ((mark_mask (progress f id) idx (totals id)).1 ∷ rs)) rest
    ∙ ap (λ b. some (b ∷ announce totals ((id, idx) ∷ earlier) calls)) r.1

none_seen : (total : ℕ) → 1 ≤ total → false ≡ all_mem total []
none_seen zero h = absurd (omega arith)
none_seen (suc total) h = refl

no_parts-IsProgress : (total c : ℕ) → 1 ≤ total → IsProgress total 0 []
no_parts-IsProgress total c h = (
  λ i l. ap (λ n. not (n == 0)) (and_zero_left (2 ^ i)),
  ap (λ n. not (n == 0)) (and_zero_left (2 ^ 15)) ∙ none_seen total h,
)

-- On a new flow, when every rule has between one and fifteen parts, and every call names a rule
-- below the number k of rules and one of its parts: no call panics, and each call returns true
-- exactly when it brings the last part that its rule still missed among the calls so far, whichever
-- of the two stores is in use.
pub mark_all_lem :
    (totals : ℕ → ℕ) (k : ℕ) (calls : List (ℕ × ℕ))
    → ((c : ℕ) → (1 ≤ totals c) × (totals c ≤ 15))
    → IsCalls totals k calls
    → mark_all totals k new calls ≡ some (announce totals [] calls)
mark_all_lem totals k calls h cs =
    mark_all-announce totals k new [] calls (λ c. (h c).1) cs _
      (λ c. no_parts-IsProgress (totals c) c (h c).0)
