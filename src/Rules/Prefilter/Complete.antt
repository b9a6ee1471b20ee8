-- ===== src/Rules/Prefilter/Complete.antt =====
-- The prefilter of a group of rules (src/rules.rs) passes on every rule whose terms match.
use argus_ips.Address.{Bytes}
use argus_ips.Base.{
  Outcome, panics, misses, gives, ℕ, zero, suc, ◌<◌, true, false, ◌||◌, List, [], ◌∷◌, ◌++◌, Option,
  none, some, some_inj, length, get_elem?, get_or, ◌==◌, ==_iff, mem, ◌≡◌, refl, sym, ap, ◌∙◌, inl,
  inr, ◌⊎◌, arith, Bool-cases, length-append,
}
use mathlib.Core.Path.{subst}
use argus_ips.Rules.Content.{Engines}
use argus_ips.Rules.Prefilter.{
  MatchScratch, begin, offer_all, Rule, RuleGroup, longest, literals, no_rules, add_rule, add_rules,
  build, pick, candidates_of, evaluated,
}
use argus_ips.Rules.Prefilter.Candidates.{IsStamped, begin-IsCurrent, offer_all-mem}
use argus_ips.Rules.Prefilter.Occurs.{Occurs}
use argus_ips.Rules.Prefilter.Literals.{walk-Occurs}
use argus_ips.Rules.Prefilter.Longest.{longest-IsAmong}
use argus_ips.Rules.Terms.{Reading, walk, start_reading, content_matches}

module _ {ℓ} {A : Type ℓ} where
  -- An item at some place of a list.
  abbrev pub Has : List A → A → Type ℓ
  Has xs x = (i : ℕ) × (get_elem? xs i ≡ some x)

  get_elem?-append :
      (xs ys : List A) (i : ℕ) (x : A) → get_elem? xs i ≡ some x → get_elem? (xs ++ ys) i ≡ some x
  get_elem?-append [] ys i x h = absurd (cc)
  get_elem?-append (y ∷ xs) ys zero x h = h
  get_elem?-append (y ∷ xs) ys (suc i) x h = get_elem?-append xs ys i x h

  get_elem?-last : (xs : List A) (x : A) → get_elem? (xs ++ (x ∷ [])) (length xs) ≡ some x
  get_elem?-last [] x = refl
  get_elem?-last (y ∷ xs) x = get_elem?-last xs x

  Has-right : (xs ys : List A) (x : A) → Has ys x → Has (xs ++ ys) x
  Has-right [] ys x h = h
  Has-right (y ∷ xs) ys x h = let (i, e) = Has-right xs ys x h in (suc i, e)

  Has-left : (xs ys : List A) (x : A) → Has xs x → Has (xs ++ ys) x
  Has-left xs ys x (i, e) = (i, get_elem?-append xs ys i x e)

walk_gives :
    (o : Outcome Reading)
    → elim o [ panics ↦ panics | misses ↦ gives false | gives s ↦ gives true ] ≡ gives true
    → (s : Reading) × (o ≡ gives s)
walk_gives panics h = absurd (cc)
walk_gives misses h = absurd (cc)
walk_gives (gives s) h = (s, refl)

module _ (e : Engines) where
  -- The three lists of the prefilter go together.
  abbrev IsAligned : RuleGroup e → Type 0
  IsAligned g =
      (length g.patterns ≡ length g.prefiltered) × (length g.pattern_owner ≡ length g.prefiltered)

  -- A rule behind the prefilter, with its pattern and its owner, or one that is always evaluated.
  abbrev IsBehind : RuleGroup e → Rule e → Type 0
  IsBehind g r =
      (i : ℕ) × (lit : Bytes) × (get_elem? g.prefiltered i ≡ some r)
      × (get_elem? g.patterns i ≡ some lit)
      × (get_elem? g.pattern_owner i ≡ some i)
      × (longest (literals e r.terms) ≡ some lit)

  abbrev IsIn : RuleGroup e → Rule e → Type 0
  IsIn g r = IsBehind g r ⊎ Has g.always r

  abbrev with_literal : RuleGroup e → Rule e → Option Bytes → RuleGroup e
  with_literal g r o = elim o [
    | some lit ↦ record g {
      prefiltered = g.prefiltered ++ (r ∷ []);
      patterns = g.patterns ++ (lit ∷ []);
      pattern_owner = g.pattern_owner ++ (length g.prefiltered ∷ []);
    }
    | none ↦ record g { always = g.always ++ (r ∷ []) }
  ]

  add-IsAligned :
      (g : RuleGroup e) (r : Rule e) (o : Option Bytes)
      → IsAligned g
      → IsAligned (with_literal g r o)
  add-IsAligned g r none h = h
  add-IsAligned g r (some lit) h = (
    omega (arith, h.0, length-append g.patterns (lit ∷ []), length-append g.prefiltered (r ∷ [])),
    omega (
      arith,
      h.1,
      length-append g.pattern_owner (length g.prefiltered ∷ []),
      length-append g.prefiltered (r ∷ []),
    ),
  )

  add-keeps :
      (g : RuleGroup e) (r q : Rule e) (o : Option Bytes) → IsIn g q → IsIn (with_literal g r o) q
  add-keeps g r q none (inl h) = inl h
  add-keeps g r q none (inr h) = inr (Has-left g.always (r ∷ []) q h)
  add-keeps g r q (some lit) (inr h) = inr h
  add-keeps g r q (some lit) (inl (i, l, a, b, c, d)) = inl (
    i,
    l,
    get_elem?-append g.prefiltered (r ∷ []) i q a,
    get_elem?-append g.patterns (lit ∷ []) i l b,
    get_elem?-append g.pattern_owner (length g.prefiltered ∷ []) i i c,
    d,
  )

  add-IsIn :
      (g : RuleGroup e) (r : Rule e) (o : Option Bytes)
      → IsAligned g
      → longest (literals e r.terms) ≡ o
      → IsIn (with_literal g r o) r
  add-IsIn g r none h q = inr (length g.always, get_elem?-last g.always r)
  add-IsIn g r (some lit) h q = inl (
    length g.prefiltered,
    lit,
    get_elem?-last g.prefiltered r,
    ap (get_elem? (g.patterns ++ (lit ∷ []))) (sym h.0) ∙ get_elem?-last g.patterns lit,
    ap (get_elem? (g.pattern_owner ++ (length g.prefiltered ∷ []))) (sym h.1)
        ∙ get_elem?-last g.pattern_owner (length g.prefiltered),
    q,
  )

  add_rules-keeps :
      (g : RuleGroup e) (rs : List (Rule e)) (q : Rule e) → IsIn g q → IsIn (add_rules e g rs) q
  add_rules-keeps g [] q h = h
  add_rules-keeps g (r ∷ rs) q h =
      add_rules-keeps (add_rule e g r) rs q (add-keeps g r q (longest (literals e r.terms)) h)

  add_rules-IsIn :
      (g : RuleGroup e) (rs : List (Rule e)) (r : Rule e) (i : ℕ)
      → IsAligned g
      → get_elem? rs i ≡ some r
      → IsIn (add_rules e g rs) r
  add_rules-IsIn g [] r i a h = absurd (cc)
  add_rules-IsIn g (x ∷ rs) r zero a h = add_rules-keeps (add_rule e g x) rs r (
      subst (IsIn (add_rule e g x)) (some_inj h)
        (add-IsIn g x (longest (literals e x.terms)) a refl))
  add_rules-IsIn g (x ∷ rs) r (suc i) a h =
      add_rules-IsIn (add_rule e g x) rs r i (add-IsAligned g x (longest (literals e x.terms)) a) h

  abbrev picked : Option (Rule e) → List (Rule e) → List (Rule e)
  picked o rest = elim o [ none ↦ rest | some r ↦ r ∷ rest ]

  picked-keeps :
      (o : Option (Rule e)) (rest : List (Rule e)) (r : Rule e) → Has rest r → Has (picked o rest) r
  picked-keeps none rest r h = h
  picked-keeps (some q) rest r (i, h) = (suc i, h)

  pick-Has :
      (rules : List (Rule e)) (ids : List ℕ) (i : ℕ) (r : Rule e)
      → get_elem? rules i ≡ some r
      → mem i ids ≡ true
      → Has (pick e rules ids) r
  pick-Has rules [] i r h k = absurd (cc)
  pick-Has rules (x ∷ ids) i r h k = elim (Bool-cases (x == i)) [
    | inl t ↦
        let q : get_elem? rules x ≡ some r = ap (get_elem? rules) ((==_iff x i).0 t) ∙ h in
        subst (λ l. Has l r) (sym (ap (λ o. picked o (pick e rules ids)) q)) (zero, refl)
    | inr t ↦
        picked-keeps (get_elem? rules x) (pick e rules ids) r
          (pick-Has rules ids i r h (sym (ap (λ b. b || mem i ids) t) ∙ k))
  ]

  some_patterns :
      (pats : List Bytes) (i j : ℕ) (lit : Bytes) (ids : List ℕ)
      → get_elem? pats i ≡ some lit
      → mem j ids ≡ true
      → mem j (elim pats [ [] ↦ [] | l ∷ ls ↦ ids ]) ≡ true
  some_patterns [] i j lit ids h k = absurd (cc)
  some_patterns (l ∷ ls) i j lit ids h k = k

  matches-walk :
      (r : Rule e) (bs : Bytes)
      → content_matches e r.terms bs ≡ gives true
      → (s : Reading) × (walk e r.terms (start_reading e bs) ≡ gives s)
  matches-walk r bs h = walk_gives (walk e r.terms (start_reading e bs)) h

get_or-some : (xs : List ℕ) (i j : ℕ) → get_elem? xs i ≡ some j → get_or xs i 0 ≡ j
get_or-some [] i j h = absurd (cc)
get_or-some (x ∷ xs) zero j h = some_inj h
get_or-some (x ∷ xs) (suc i) j h = get_or-some xs i j h

module _ (e : Engines)
    (one : (b : ℕ) (w : Bytes) (d : ℕ) → e.chars.memchr b w ≡ some d → d < length w)
    (two : (a b : ℕ) (w : Bytes) (d : ℕ) → e.chars.memchr2 a b w ≡ some d → d < length w)
    (overlapping : List Bytes → Bytes → List ℕ)
    (finds : (pats : List Bytes) (bs : Bytes) (i : ℕ) (lit : Bytes)
      → get_elem? pats i ≡ some lit
      → Occurs bs lit
      → mem i (overlapping pats bs) ≡ true) where
  evaluated-IsBehind :
      (g : RuleGroup e) (r : Rule e) (bs : Bytes) (s : MatchScratch)
      → IsStamped s
      → content_matches e r.terms bs ≡ gives true
      → IsBehind e g r
      → Has (pick e g.prefiltered (candidates_of e overlapping g bs s)) r
  evaluated-IsBehind g r bs s stamped h (i, lit, a, b, c, d) =
      let (last, w) = matches-walk e r bs h in
      let found : mem i (overlapping g.patterns bs) ≡ true = finds g.patterns bs i lit b (
        walk-Occurs e one two r.terms (start_reading e bs) last lit
          (longest-IsAmong (literals e r.terms) lit d) w) in
      let round : MatchScratch = begin s (length g.prefiltered) in
      let ids : List ℕ = (offer_all g.pattern_owner round (overlapping g.patterns bs)).candidates in
      let candidate : mem i ids ≡ true =
        ap (λ j. mem j ids) (sym (get_or-some g.pattern_owner i i c))
        ∙ offer_all-mem g.pattern_owner round (overlapping g.patterns bs) i
            (begin-IsCurrent s (length g.prefiltered) stamped) found in
      pick-Has e g.prefiltered (candidates_of e overlapping g bs s) i r a
        (some_patterns e g.patterns i i lit ids b candidate)

  -- When `memchr` and `memchr2` return an index inside what they search, the automaton reports every
  -- pattern that stands in the bytes without regard to ASCII case, and no stamp of the scratch is
  -- newer than its generation: a rule of the group whose terms match the buffer is among the rules
  -- that are evaluated against it, so the prefilter hides no match.
  pub evaluated-Has :
      (rs : List (Rule e)) (r : Rule e) (i : ℕ) (bs : Bytes) (s : MatchScratch)
      → IsStamped s
      → get_elem? rs i ≡ some r
      → content_matches e r.terms bs ≡ gives true
      → Has (evaluated e overlapping (build e rs) bs s) r
  evaluated-Has rs r i bs s stamped h m =
      let g : RuleGroup e = build e rs in
      elim (add_rules-IsIn e (no_rules e) rs r i (refl, refl) h) [
        | inl b ↦
            Has-left (pick e g.prefiltered (candidates_of e overlapping g bs s)) g.always r
              (evaluated-IsBehind g r bs s stamped m b)
        | inr b ↦ Has-right (pick e g.prefiltered (candidates_of e overlapping g bs s)) g.always r b
      ]
