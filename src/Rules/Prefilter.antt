-- ===== src/Rules/Prefilter.antt =====
-- The rules of one buffer behind their prefilter (src/rules.rs): `evaluate_rule`, `RuleGroup` and
-- `run_group`.
pub mod Occurs
pub mod Longest
pub mod Literals
pub mod Candidates
pub mod Complete
use Prim.Native.String.{String}
use argus_ips.Address.{Bytes}
use argus_ips.Base.{
  Outcome, panics, misses, gives, ◌>>!◌, ℕ, ◌+◌, ◌-◌, max, Bool, true, false, not, ◌&&◌, ◌||◌, List,
  [], ◌∷◌, ◌++◌, Option, none, some, length, get_elem?, get_or, set, replicate, ltb, ◌==◌,
  is_none_or, if◌then◌else◌,
}
use argus_ips.Packet.Transport.{Packet}
use argus_ips.Rules.Content.{Engines, ContentMatch, Pattern, literal, no_case, regex, backtrack}
use argus_ips.Rules.Effects.{Flowbit, flowbits_hold, sets_flowbits}
use argus_ips.Rules.Flowbits.{FlowBits}
use argus_ips.Rules.Header.{HeaderMatch, Orientation, matches, stream_holds}
use argus_ips.Rules.Terms.{
  Term, transform, extract, math, base64, content, byte_test, byte_jump, buffer_len, data_at,
  content_matches,
}
use argus_ips.Threshold.Gate.{XbitOp}

-- `Severity` of src/engine.rs.
pub data Severity : Type 0 where
  low medium high : Severity

pub record RuleHit : Type 0 where
  pub name : String
  pub sid : ℕ
  pub severity : Severity

-- The longest of the literals; of several, the last, as `max_by_key` takes it.
abbrev pub longest : List Bytes → Option Bytes
longest [] = none
longest (l ∷ ls) = elim (longest ls) [
  | none ↦ some l
  | some m ↦ some (if ltb (length m) (length l) then l else m)
]

pub record MatchScratch : Type 0 where
  pub candidates : List ℕ
  pub seen : List ℕ
  pub generation : ℕ

-- `resize` to at least `rules` stamps.
abbrev pub begin : MatchScratch → ℕ → MatchScratch
begin s rules = record {
  candidates = [];
  seen =
      if ltb (length s.seen) rules then s.seen ++ replicate (rules - length s.seen) 0 else s.seen;
  generation = s.generation + 1;
}

-- `first_time`, and the push when it says so.
abbrev pub mark_candidate : MatchScratch → ℕ → MatchScratch
mark_candidate s idx =
    if get_or s.seen idx 0 == s.generation
    then s
    else record s { candidates = s.candidates ++ (idx ∷ []); seen = set s.seen idx s.generation }

-- The loop over the automaton's matches.
abbrev pub offer_all : List ℕ → MatchScratch → List ℕ → MatchScratch
offer_all owners s [] = s
offer_all owners s (id ∷ ids) = offer_all owners (mark_candidate s (get_or owners id 0)) ids

module _ (e : Engines) where
  -- The fields of `Rule` that its evaluation reads.
  pub record Rule : Type 0 where
    pub sid : ℕ
    pub name : String
    pub severity : Severity
    pub header : HeaderMatch
    pub terms : List (Term e)
    pub flowbits : List Flowbit
    pub noalert : Bool
    pub part : Option (ℕ × ℕ)
    pub xbits : List XbitOp

  abbrev pub is_some_part : Option (ℕ × ℕ) → Bool
  is_some_part none = false
  is_some_part (some p) = true

  abbrev pub has_flow : Option FlowBits → Bool
  has_flow none = false
  has_flow (some b) = true

  -- `Rule::stream_holds`
  abbrev pub rule_stream_holds : Rule → Option FlowBits → Bool
  rule_stream_holds r bits =
      is_none_or r.header.extra (λ x. is_none_or x.stream (λ t. stream_holds t bits))

  abbrev pub rule_fires : Rule → Packet → Orientation → Bytes → Option FlowBits → Outcome Bool
  rule_fires r p evaluate bs bits =
      if not (is_some_part r.part && not (has_flow bits))
        && matches r.header p evaluate
        && rule_stream_holds r bits
        && flowbits_hold r.flowbits bits
      then content_matches e r.terms bs
      else gives false

  abbrev pub has_xbits : List XbitOp → Bool
  has_xbits [] = false
  has_xbits (x ∷ xs) = true

  -- `evaluate_rule`: whether effects are still to apply, and the hits pushed.
  abbrev pub evaluate_rule :
      Rule → Packet → Orientation → Bytes → Option FlowBits → Outcome (Bool × List RuleHit)
  evaluate_rule r p evaluate bs bits = rule_fires r p evaluate bs bits >>! λ fires. gives (
      if fires
      then (
        sets_flowbits r.flowbits || is_some_part r.part,
        if not r.noalert || has_xbits r.xbits
            then record { name = r.name; sid = r.sid; severity = r.severity } ∷ []
            else [],
      )
      else (false, []))

  abbrev pub prefilter_literal : ContentMatch e → Option Bytes
  prefilter_literal c = elim c.pattern [
    | literal p ↦ if not c.negate && not (length p == 0) then some p else none
    | no_case p ↦ if not c.negate && not (length p == 0) then some p else none
    | regex re ↦ none
    | backtrack re ↦ none
  ]

  -- The literals of `prefilter_contents`, which stops at a `base64_decode`.
  abbrev pub literals : List (Term e) → List Bytes
  literals [] = []
  literals (base64 b ∷ ts) = []
  literals (content c ∷ ts) =
      let rest = literals ts in elim (prefilter_literal c) [ none ↦ rest | some l ↦ l ∷ rest ]
  literals (t ∷ ts) = literals ts

  -- A group, with the patterns that its automaton is built of. `max_pattern`, which only the
  -- incremental scan of a stream reads, is left out.
  pub record RuleGroup : Type 0 where
    pub prefiltered : List Rule
    pub patterns : List Bytes
    pub pattern_owner : List ℕ
    pub always : List Rule

  abbrev pub no_rules : RuleGroup
  no_rules = record { prefiltered = []; patterns = []; pattern_owner = []; always = [] }

  -- One round of `RuleGroup::build`.
  abbrev pub add_rule : RuleGroup → Rule → RuleGroup
  add_rule g r = elim (longest (literals r.terms)) [
    | some lit ↦ record g {
      prefiltered = g.prefiltered ++ (r ∷ []);
      patterns = g.patterns ++ (lit ∷ []);
      pattern_owner = g.pattern_owner ++ (length g.prefiltered ∷ []);
    }
    | none ↦ record g { always = g.always ++ (r ∷ []) }
  ]

  abbrev pub add_rules : RuleGroup → List Rule → RuleGroup
  add_rules g [] = g
  add_rules g (r ∷ rs) = add_rules (add_rule g r) rs

  abbrev pub build : List Rule → RuleGroup
  build rs = add_rules no_rules rs

  abbrev pub pick : List Rule → List ℕ → List Rule
  pick rules [] = []
  pick rules (idx ∷ ids) =
      let rest = pick rules ids in elim (get_elem? rules idx) [ none ↦ rest | some r ↦ r ∷ rest ]

  -- The ids of the patterns that the `aho-corasick` crate finds in the bytes, overlapping matches
  -- included and without regard to ASCII case.
  module _ (overlapping : List Bytes → Bytes → List ℕ) where
    abbrev pub candidates_of : RuleGroup → Bytes → MatchScratch → List ℕ
    candidates_of g bs s = elim g.patterns [
      | [] ↦ []
      | l ∷ ls ↦
          (offer_all g.pattern_owner (begin s (length g.prefiltered))
            (overlapping g.patterns bs)).candidates
    ]

    -- The rules that `run_group` evaluates, in its order.
    abbrev pub evaluated : RuleGroup → Bytes → MatchScratch → List Rule
    evaluated g bs s = pick g.prefiltered (candidates_of g bs s) ++ g.always

    -- The rules with effects still to apply, and the hits.
    abbrev pub evaluate_all :
        List Rule
        → Packet
        → Orientation
        → Bytes
        → Option FlowBits
        → Outcome (List Rule × List RuleHit)
    evaluate_all [] p evaluate bs bits = gives ([], [])
    evaluate_all (r ∷ rs) p evaluate bs bits = evaluate_rule r p evaluate bs bits >>! λ one.
        evaluate_all rs p evaluate bs bits >>! λ rest.
        gives (if one.0 then r ∷ rest.0 else rest.0, one.1 ++ rest.1)

    abbrev pub run_group :
        RuleGroup
        → Packet
        → Orientation
        → Bytes
        → MatchScratch
        → Option FlowBits
        → Outcome (List Rule × List RuleHit)
    run_group g p evaluate bs s bits = evaluate_all (evaluated g bs s) p evaluate bs bits
