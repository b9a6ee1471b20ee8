-- ===== src/Threshold/Run/Replay.antt =====
-- Replay counts in an order that arrival does not decide.
use mathlib.Core.List.{append-nil, append_assoc}
use argus_ips.Base.{
  ℕ, suc, ◌+◌, ◌<◌, Bool, true, false, ◌&&◌, List, [], ◌∷◌, ◌++◌, ◌≡◌, length, arith, length-append,
  refl, ap, ◌∙◌, sym, ==_iff,
}
use argus_ips.Threshold.Gate.{Alert}
use argus_ips.Threshold.Run.{
  Rules, State, is_none, refresh, hold, receive, receive_all, finish, start, run_threshold_gate,
}

-- A rule of the alert counts or has bits.
abbrev pub is_tracked : Rules → Alert → Bool
is_tracked r a = is_none (r.threshold_for a.sid) && is_none (r.xbits_for a.sid)

abbrev pub AllTracked : Rules → List Alert → Type 0
AllTracked r [] = Unit
AllTracked r (a ∷ as') = (is_tracked r a ≡ false) × AllTracked r as'

abbrev pub at_generation : ℕ → List Alert → List (ℕ × Alert)
at_generation gen [] = []
at_generation gen (a ∷ as') = (gen, a) ∷ at_generation gen as'

module _ (load : ℕ → Rules) (sort : List Alert → List Alert) (max_held : ℕ) (gen : ℕ) where
  hold_room :
      (s : State) (a : Alert)
      → suc (length s.held) < max_held
      → hold load sort max_held s a ≡ record s { held = s.held ++ a ∷ [] }
  unfolding hold
  hold_room s a h = ground (arith, length-append s.held (a ∷ []))

  receive_tracked :
      (s : State) (a : Alert)
      → s.generation ≡ gen
      → is_tracked (load gen) a ≡ false
      → suc (length s.held) < max_held
      → receive load sort max_held true s gen a ≡ record s { held = s.held ++ a ∷ [] }
  unfolding receive refresh
  receive_tracked s a e t h = rw ((==_iff gen s.generation).1 (sym e), t) (hold_room s a h)

  receive_held :
      (s : State) (as' : List Alert)
      → s.generation ≡ gen
      → AllTracked (load gen) as'
      → length s.held + length as' < max_held
      → receive_all load sort max_held true s (at_generation gen as')
        ≡ record s { held = s.held ++ as' }
  unfolding receive_all
  receive_held s [] e t h = rw (append-nil s.held) refl
  receive_held s (a ∷ as') e t h =
      ap (λ (x : State). receive_all load sort max_held true x (at_generation gen as'))
        (receive_tracked s a e t.0 (omega arith))
      ∙ receive_held (record s { held = s.held ++ a ∷ [] }) as' e t.1
          (omega (arith, length-append s.held (a ∷ [])))
      ∙ rw (append_assoc s.held (a ∷ []) as') refl

  -- In replay, while fewer alerts are held than one batch takes and the ruleset does not change,
  -- two arrivals of counted alerts that the sort puts into the same order end alike: the same is
  -- sent, in the same order, with the same counts and the same state.
  pub run_threshold_gate_order :
      (as' bs : List Alert)
      → sort as' ≡ sort bs
      → AllTracked (load gen) as'
      → AllTracked (load gen) bs
      → length as' < max_held
      → length bs < max_held
      → run_threshold_gate load sort max_held true gen (at_generation gen as')
        ≡ run_threshold_gate load sort max_held true gen (at_generation gen bs)
  unfolding run_threshold_gate finish
  run_threshold_gate_order as' bs same ta tb la lb = rw (
    receive_held (start gen) as' refl ta (omega arith),
    receive_held (start gen) bs refl tb (omega arith),
    same,
  )
