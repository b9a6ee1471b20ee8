-- ===== src/Rules/Prefilter/Literals.antt =====
-- The literals that a rule of src/rules.rs requires: a rule whose terms match has them all in the
-- buffer.
use argus_ips.Address.{Bytes}
use argus_ips.Base.{
  Outcome, panics, misses, gives, ◌>>!◌, >>!-eq_gives, gives_inj, of_option-eq_gives, ℕ, ◌+◌, ◌-◌,
  ◌<◌, ◌≤◌, min, Bool, true, false, not, ◌&&◌, List, [], ◌∷◌, Option, none, some, >>=-eq_some,
  some_inj, length, take, drop, slice, length-take, ltb, ◌==◌, and_left, if_true, if_false,
  if◌then◌else◌, ◌≡◌, refl, sym, ap, ◌∙◌, inl, inr, ◌⊎◌, arith, Bool-cases,
}
use mathlib.Core.Path.{subst}
use argus_ips.Rules.Content.{
  Engines, ContentMatch, Pattern, literal, no_case, regex, backtrack, bounds, find_content, find_in,
  find_resumed, literal_at,
}
use argus_ips.Rules.Prefilter.{prefilter_literal, literals}
use argus_ips.Rules.Prefilter.Longest.{IsAmong}
use argus_ips.Rules.Prefilter.Occurs.{
  Occurs, stands_at, find_subslice-stands_at, find_nocase-stands_at, take-drop-take, drop-drop,
}
use argus_ips.Rules.Search.{find_subslice, find_nocase, eq_ignore_case}
use argus_ips.Rules.Search.Bounds.{find_subslice-bound, find_nocase-bound}
use argus_ips.Rules.Terms.{
  Reading, Term, transform, extract, math, base64, content, byte_test, byte_jump, buffer_len,
  data_at, after_content, pass_if, step, walk,
}
use argus_ips.Rules.Vars.{Vars}

literal_at-some :
    (e : Engines) (start len : ℕ) (o : Option ℕ) (r : ℕ × ℕ)
    → literal_at e start len o ≡ some r
    → (i : ℕ) × (o ≡ some i)
literal_at-some e start len none r h = absurd (cc)
literal_at-some e start len (some i) r h = (i, refl)

-- A place in a window is a place in the buffer.
Occurs-slice :
    (bs lit : Bytes) (lo hi i : ℕ)
    → i + length lit ≤ length (slice bs lo hi)
    → stands_at (slice bs lo hi) lit i ≡ true
    → Occurs bs lit
Occurs-slice bs lit lo hi i h e =
    let k : i + length lit ≤ hi - lo = omega (arith, h, length-take (hi - lo) (drop lo bs)) in
    (
      lo + i,
      ap (λ b. eq_ignore_case b lit)
            (sym (
              take-drop-take (length lit) i (hi - lo) (drop lo bs) k
              ∙ ap (take (length lit)) (drop-drop i lo bs)))
          ∙ e,
    )

not-true : (b : Bool) → not b ≡ true → b ≡ false
not-true true h = sym h
not-true false h = refl

module _ (e : Engines)
    (one : (b : ℕ) (w : Bytes) (d : ℕ) → e.chars.memchr b w ≡ some d → d < length w)
    (two : (a b : ℕ) (w : Bytes) (d : ℕ) → e.chars.memchr2 a b w ≡ some d → d < length w) where
  -- `prefilter_literal` on the pattern.
  abbrev literal_of : ContentMatch e → Pattern e → Option Bytes
  literal_of c q = elim q [
    | literal p ↦ if not c.negate && not (length p == 0) then some p else none
    | no_case p ↦ if not c.negate && not (length p == 0) then some p else none
    | regex re ↦ none
    | backtrack re ↦ none
  ]

  guarded :
      (c : ContentMatch e) (p lit : Bytes)
      → (if not c.negate && not (length p == 0) then some p else none) ≡ some lit
      → (c.negate ≡ false) × (p ≡ lit)
  guarded c p lit h = elim (Bool-cases (not c.negate && not (length p == 0))) [
    | inl t ↦ (
      not-true c.negate (and_left (not c.negate) (not (length p == 0)) t),
      some_inj (sym (if_true _ _ t) ∙ h),
    )
    | inr t ↦ let z : none ≡ some lit = sym (if_false _ _ t) ∙ h in absurd (cc)
  ]

  literal_of-positive :
      (c : ContentMatch e) (q : Pattern e) (lit : Bytes)
      → literal_of c q ≡ some lit
      → c.negate ≡ false
  literal_of-positive c (literal p) lit h = (guarded c p lit h).0
  literal_of-positive c (no_case p) lit h = (guarded c p lit h).0
  literal_of-positive c (regex re) lit h = absurd (cc)
  literal_of-positive c (backtrack re) lit h = absurd (cc)

  find_resumed-none :
      (c : ContentMatch e) (q : Pattern e) (lit bs : Bytes) (from : ℕ)
      → literal_of c q ≡ some lit
      → find_resumed e c q bs from ≡ none
  find_resumed-none c (literal p) lit bs from h = refl
  find_resumed-none c (no_case p) lit bs from h = refl
  find_resumed-none c (regex re) lit bs from h = absurd (cc)
  find_resumed-none c (backtrack re) lit bs from h = absurd (cc)

  find_in-stands_at :
      (c : ContentMatch e) (q : Pattern e) (lit window : Bytes) (start : ℕ) (r : ℕ × ℕ)
      → literal_of c q ≡ some lit
      → find_in e c q window start ≡ some r
      → (i : ℕ) × (i + length lit ≤ length window) × (stands_at window lit i ≡ true)
  find_in-stands_at c (literal p) lit window start r h f =
      let (i, g) = literal_at-some e start (length p) (find_subslice window p) r f in
      let q : p ≡ lit = (guarded c p lit h).1 in
      (
        i,
        subst (λ l. i + length l ≤ length window) q (find_subslice-bound window p i g),
        ap (λ l. stands_at window l i) (sym q) ∙ find_subslice-stands_at window p i g,
      )
  find_in-stands_at c (no_case p) lit window start r h f =
      let (i, g) = literal_at-some e start (length p) (find_nocase e.chars window p) r f in
      let q : p ≡ lit = (guarded c p lit h).1 in
      (
        i,
        subst (λ l. i + length l ≤ length window) q
            (find_nocase-bound e.chars one two window p i g),
        ap (λ l. stands_at window l i) (sym q) ∙ find_nocase-stands_at e.chars window p i g,
      )
  find_in-stands_at c (regex re) lit window start r h f = absurd (cc)
  find_in-stands_at c (backtrack re) lit window start r h f = absurd (cc)

  find_content-Occurs :
      (c : ContentMatch e) (lit bs : Bytes) (cursor : ℕ) (vars : Vars) (r : ℕ × ℕ)
      → prefilter_literal e c ≡ some lit
      → find_content e c bs cursor vars ≡ some r
      → Occurs bs lit
  find_content-Occurs c lit bs cursor vars r h f = elim (Bool-cases c.resume) [
    | inl t ↦
        let z : none ≡ some r =
          sym (find_resumed-none c c.pattern lit bs (min cursor (length bs)) h)
          ∙ sym (if_true _ _ t)
          ∙ f in
        absurd (cc)
    | inr t ↦
        let (w, g, k) =
          >>=-eq_some (bounds e c (length bs) cursor vars)
            (λ w. if ltb w.1 w.0 then none else find_in e c c.pattern (slice bs w.0 w.1) w.0)
            (sym (if_false _ _ t) ∙ f) in
        elim (Bool-cases (ltb w.1 w.0)) [
          | inl u ↦ let z : none ≡ some r = sym (if_true _ _ u) ∙ k in absurd (cc)
          | inr u ↦
              let (i, b, p) =
                find_in-stands_at c c.pattern lit (slice bs w.0 w.1) w.0 r h
                  (sym (if_false _ _ u) ∙ k) in
              Occurs-slice bs lit w.0 w.1 i b p
        ]
  ]

  -- A test that passes leaves the state as it was.
  test_view : (b : Bool) (s s' : Reading) → pass_if e b s ≡ gives s' → s'.view ≡ s.view
  test_view true s s' h = ap (λ t. t.view) (sym (gives_inj h))
  test_view false s s' h = absurd (cc)

  tested_view :
      (o : Outcome Bool) (s s' : Reading) → (o >>! λ b. pass_if e b s) ≡ gives s' → s'.view ≡ s.view
  tested_view panics s s' h = absurd (cc)
  tested_view misses s s' h = absurd (cc)
  tested_view (gives b) s s' h = test_view b s s' h

  chain_view {ℓ} :
      {B : Type ℓ} (o : Outcome B) (f : B → Reading) (s s' : Reading)
      → ((b : B) → (f b).view ≡ s.view)
      → (o >>! λ b. gives (f b)) ≡ gives s'
      → s'.view ≡ s.view
  chain_view panics f s s' g h = absurd (cc)
  chain_view misses f s s' g h = absurd (cc)
  chain_view (gives b) f s s' g h = ap (λ t. t.view) (sym (gives_inj h)) ∙ g b

  content_view :
      (negate : Bool) (s s' : Reading) (o : Option (ℕ × ℕ))
      → after_content e negate s o ≡ some s'
      → s'.view ≡ s.view
  content_view true s s' none h = ap (λ t. t.view) (sym (some_inj h))
  content_view false s s' none h = absurd (cc)
  content_view true s s' (some r) h = absurd (cc)
  content_view false s s' (some r) h = ap (λ t. t.view) (sym (some_inj h))

  content_found :
      (negate : Bool) (s s' : Reading) (o : Option (ℕ × ℕ))
      → negate ≡ false
      → after_content e negate s o ≡ some s'
      → (r : ℕ × ℕ) × (o ≡ some r)
  content_found true s s' o q h = absurd (cc)
  content_found false s s' none q h = absurd (cc)
  content_found false s s' (some r) q h = (r, refl)

  first_or_rest :
      (o : Option Bytes) (lit : Bytes) (rest : List Bytes)
      → IsAmong lit (elim o [ none ↦ rest | some l ↦ l ∷ rest ])
      → (o ≡ some lit) ⊎ IsAmong lit rest
  first_or_rest none lit rest h = inr h
  first_or_rest (some l) lit rest (inl q) = inl (ap some (sym q))
  first_or_rest (some l) lit rest (inr q) = inr q

  Occurs-view :
      (s s' : Reading) (lit : Bytes) → s'.view ≡ s.view → Occurs s'.view lit → Occurs s.view lit
  Occurs-view s s' lit q h = subst (λ v. Occurs v lit) q h

  -- The terms after one that leaves the bytes alone.
  pub walk-Occurs :
      (ts : List (Term e)) (s s' : Reading) (lit : Bytes)
      → IsAmong lit (literals e ts)
      → walk e ts s ≡ gives s'
      → Occurs s.view lit
  walk-Occurs [] s s' lit h w = absurd (omega (arith, h))
  walk-Occurs (base64 b ∷ ts) s s' lit h w = absurd (omega (arith, h))
  walk-Occurs (transform t ∷ ts) s s' lit h w = walk-Occurs ts s s' lit h w
  walk-Occurs (extract x ∷ ts) s s' lit h w =
      let (m, g, k) = >>!-eq_gives (step e (extract x) s) (walk e ts) w in
      Occurs-view s m lit (chain_view _ (λ next. record s { vars = next }) s m (λ b. refl) g)
        (walk-Occurs ts m s' lit h k)
  walk-Occurs (math x ∷ ts) s s' lit h w =
      let (m, g, k) = >>!-eq_gives (step e (math x) s) (walk e ts) w in
      Occurs-view s m lit (chain_view _ (λ next. record s { vars = next }) s m (λ b. refl) g)
        (walk-Occurs ts m s' lit h k)
  walk-Occurs (byte_jump j ∷ ts) s s' lit h w =
      let (m, g, k) = >>!-eq_gives (step e (byte_jump j) s) (walk e ts) w in
      Occurs-view s m lit (chain_view _ (λ next. record s { cursor = next }) s m (λ b. refl) g)
        (walk-Occurs ts m s' lit h k)
  walk-Occurs (byte_test t ∷ ts) s s' lit h w =
      let (m, g, k) = >>!-eq_gives (step e (byte_test t) s) (walk e ts) w in
      Occurs-view s m lit (tested_view _ s m g) (walk-Occurs ts m s' lit h k)
  walk-Occurs (buffer_len t ∷ ts) s s' lit h w =
      let (m, g, k) = >>!-eq_gives (step e (buffer_len t) s) (walk e ts) w in
      Occurs-view s m lit (test_view _ s m g) (walk-Occurs ts m s' lit h k)
  walk-Occurs (data_at d ∷ ts) s s' lit h w =
      let (m, g, k) = >>!-eq_gives (step e (data_at d) s) (walk e ts) w in
      Occurs-view s m lit (test_view _ s m g) (walk-Occurs ts m s' lit h k)
  walk-Occurs (content c ∷ ts) s s' lit h w =
      let (m, g, k) = >>!-eq_gives (step e (content c) s) (walk e ts) w in
      let found = find_content e c s.view s.cursor s.vars in
      let f = of_option-eq_gives (after_content e c.negate s found) g in
      elim (first_or_rest (prefilter_literal e c) lit (literals e ts) h) [
        | inl q ↦
            let (r, at) =
              content_found c.negate s m found (literal_of-positive c c.pattern lit q) f in
            find_content-Occurs c lit s.view s.cursor s.vars r q at
        | inr q ↦
            Occurs-view s m lit (content_view c.negate s m found f) (walk-Occurs ts m s' lit q k)
      ]
