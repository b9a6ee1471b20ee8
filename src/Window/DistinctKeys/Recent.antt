-- ===== src/Window/DistinctKeys/Recent.antt =====
-- `WindowSet` against the history of what was inserted.
use argus_ips.Base.{
  ◌+◌, ◌∙◌, sym, ◌↔◌, ℕ, ◌<◌, ◌≤◌, List, [], ◌∷◌, Option, none, some, ◌≡◌, refl, Eq, length,
  if◌then◌else◌, arith,
}
use argus_ips.HashMap.{get, insert, get-insert, length-insert, get-retain, length-retain}
use argus_ips.Window.DistinctKeys.Bounds.{IsValid, insert_key-IsValid}
use argus_ips.Window.DistinctKeys.{
  WindowSet, new, is_live, prune, is_refused, insert_pruned, insert_key,
}

-- The time of the newest event of a history, which lists the newest first.
abbrev pub newest : {K : Type 0} → List (K × ℕ) → ℕ
newest [] = 0
newest ((k, t) ∷ h) = t

-- Times never go back.
abbrev pub IsOrdered : {K : Type 0} → List (K × ℕ) → Type 0
IsOrdered [] = Unit
IsOrdered ((k, t) ∷ h) = (newest h ≤ t) × IsOrdered h

abbrev pub live_only : ℕ → ℕ → Option ℕ → Option ℕ
live_only now w none = none
live_only now w (some t) = if is_live now w t then some t else none

live_only_iff :
    (now w t : ℕ) (o : Option ℕ) → (live_only now w o ≡ some t) ↔ ((o ≡ some t) × (now < t + w))
live_only_iff now w t none = ground arith
live_only_iff now w t (some s) = ground arith

module _ {K : Type 0} ⦃e : Eq K⦄ where
  -- The table after the insertions of a history.
  unfoldable pub replay : ℕ → ℕ → List (K × ℕ) → WindowSet K
  replay cap w [] = new cap
  replay cap w ((k, t) ∷ h) = (insert_key (replay cap w h) k t w).0

  -- When a key was last seen in a history: `get` on the history itself.
  record Tracks (cap w : ℕ) (h : List (K × ℕ)) (s : WindowSet K) : Type 0 where
    valid : IsValid s
    cap_is : cap ≤ s.cap
    small : length s.seen ≤ length h
    pruned : s.last_pruned ≡ newest h
    found : (j : K) → get j s.seen ≡ live_only (newest h) w (get j h)

  Tracks-new : (cap w : ℕ) → Tracks cap w [] (new cap)
  unfolding new
  Tracks-new cap w = record {
    valid = record { positive = omega arith; bounded = omega arith; distinct = tt };
    cap_is = omega arith;
    small = omega arith;
    pruned = refl;
    found = λ j. refl;
  }

  prune-found :
      (cap w t : ℕ) (h : List (K × ℕ)) (s : WindowSet K) (j : K)
      → Tracks cap w h s
      → newest h ≤ t
      → get j (prune s t w).seen ≡ live_only t w (get j h)
  unfolding prune
  prune-found cap w t h s j r o =
      ground (arith, r.found j, r.pruned, get-retain (is_live t w) j s.seen r.valid.distinct)

  prune-small : (s : WindowSet K) (t w : ℕ) → length (prune s t w).seen ≤ length s.seen
  unfolding prune
  prune-small s t w = ground (arith, length-retain (is_live t w) s.seen)

  prune_fields :
      (s : WindowSet K) (t w : ℕ)
      → s.last_pruned ≤ t
      → ((prune s t w).last_pruned ≡ t) × ((prune s t w).cap ≡ s.cap)
  unfolding prune
  prune_fields s t w h = ground arith

  insert_pruned_room :
      (p : WindowSet K) (k : K) (t : ℕ)
      → length p.seen < p.cap
      → (insert_pruned p k t).0 ≡ record p { seen = insert k t p.seen }
  unfolding insert_pruned is_refused
  insert_pruned_room p k t h = ground arith

  Tracks-insert :
      (cap w t : ℕ) (k : K) (h : List (K × ℕ)) (s : WindowSet K)
      → Tracks cap w h s
      → newest h ≤ t
      → 0 < w
      → length h < cap
      → Tracks cap w ((k, t) ∷ h) (insert_key s k t w).0
  unfolding insert_key
  Tracks-insert cap w t k h s r o pos room =
      let p = prune s t w in
      let f = prune_fields s t w (omega (arith, r.pruned)) in
      let small = prune-small s t w in
      let e = insert_pruned_room p k t (omega arith) in
      record {
        valid = (insert_key-IsValid s k t w r.valid).0;
        cap_is = rw e (omega arith);
        small = rw e (ground (arith, length-insert k t p.seen));
        pruned = rw e f.0;
        found = λ j. rw e (ground (arith, get-insert k j t p.seen, prune-found cap w t h s j r o));
      }

  replay-Tracks :
      (cap w : ℕ) (h : List (K × ℕ))
      → IsOrdered h
      → 0 < w
      → length h ≤ cap
      → Tracks cap w h (replay cap w h)
  unfolding replay
  replay-Tracks cap w [] o pos room = Tracks-new cap w
  replay-Tracks cap w ((k, t) ∷ h) o pos room =
      Tracks-insert cap w t k h (replay cap w h) (replay-Tracks cap w h o.1 pos (omega arith)) o.0
        pos (omega arith)

  -- While no more keys were inserted than the cap allows, in time order and with a window above 0,
  -- the table is exactly the sliding window over the history: a lookup finds a time if and only if
  -- the key was last seen then and that is less than `w` seconds before the newest insertion.
  pub get-replay :
      (cap w : ℕ) (h : List (K × ℕ)) (j : K) (t : ℕ)
      → IsOrdered h
      → 0 < w
      → length h ≤ cap
      → (get j (replay cap w h).seen ≡ some t) ↔ ((get j h ≡ some t) × (newest h < t + w))
  get-replay cap w h j t o pos room =
      let e = (replay-Tracks cap w h o pos room).found j in
      let l = live_only_iff (newest h) w t (get j h) in ((λ q. l.0 (sym e ∙ q)), (λ q. e ∙ l.1 q))
