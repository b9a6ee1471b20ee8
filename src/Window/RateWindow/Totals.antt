-- ===== src/Window/RateWindow/Totals.antt =====
-- The total of the ring against the history of what was added.
use argus_ips.Base.{
  u64_range, ℕ, zero, suc, ◌+◌, ◌%◌, ◌<◌, ◌≤◌, max, true, List, [], ◌∷◌, Option, none, some, ◌≡◌,
  ◌≢◌, refl, ap, ◌∙◌, if◌then◌else◌, arith, Bool-cases, inl, inr, length, get_or, set, replicate,
  length-replicate, length-set,
}
use argus_ips.Window.RateWindow.Slots.{
  newest, IsOrdered, amount_within, slot_amount, slots_from, slots_from-amount_within, lap,
}
use argus_ips.Window.RateWindow.{RateWindow, new, is_stamped, live_count, sum_live, total, add}

abbrev StampFits : ℕ → ℕ → List (ℕ × ℕ) → Option ℕ → Type 0
StampFits n i h none = Unit
StampFits n i h (some s) = (s % n ≡ i) × (s ≤ newest h)

record Cell (n i : ℕ) (h : List (ℕ × ℕ)) (stamp : Option ℕ) (count : ℕ) : Type 0 where
  fits : StampFits n i h stamp
  counts :
      (now : ℕ) → newest h ≤ now → live_count n now stamp count ≡ slot_amount n i now h % u64_range

-- Every bucket from number `i` on agrees with the history.
abbrev Cells : ℕ → ℕ → List (ℕ × ℕ) → List (Option ℕ) → List ℕ → Type 0
Cells n i h [] [] = Unit
Cells n i h (s ∷ ss) (c ∷ cs) = Cell n i h s c × Cells n (suc i) h ss cs
Cells n i h [] (c ∷ cs) = ⊥
Cells n i h (s ∷ ss) [] = ⊥

sum_live-slots :
    (n now i : ℕ) (h : List (ℕ × ℕ)) (ss : List (Option ℕ)) (cs : List ℕ)
    → newest h ≤ now
    → Cells n i h ss cs
    → sum_live n now ss cs ≡ slots_from n i (length cs) now h % u64_range
unfolding slots_from
sum_live-slots n now i h [] [] o k = refl
sum_live-slots n now i h [] (c ∷ cs) o k = absurd k
sum_live-slots n now i h (s ∷ ss) [] o k = absurd k
sum_live-slots n now i h (s ∷ ss) (c ∷ cs) o k =
    omega (arith, k.0.counts now o, sum_live-slots n now (suc i) h ss cs o k.1)

-- A bucket that the new event does not fall into.
Cell-other :
    (n i t a : ℕ) (h : List (ℕ × ℕ)) (s : Option ℕ) (c : ℕ)
    → newest h ≤ t
    → t % n ≢ i
    → Cell n i h s c
    → Cell n i ((t, a) ∷ h) s c
Cell-other n i t a h none c o ne k = record {
  fits = tt;
  counts = λ now l. ground (arith, k.counts now);
}
Cell-other n i t a h (some s) c o ne k = record {
  fits = (k.fits.0, omega (arith, k.fits.1));
  counts = λ now l. ground (arith, k.counts now);
}

Cells-other :
    (n i t a : ℕ) (h : List (ℕ × ℕ)) (ss : List (Option ℕ)) (cs : List ℕ)
    → newest h ≤ t
    → t % n < i
    → Cells n i h ss cs
    → Cells n i ((t, a) ∷ h) ss cs
Cells-other n i t a h [] [] o lt k = tt
Cells-other n i t a h [] (c ∷ cs) o lt k = absurd k
Cells-other n i t a h (s ∷ ss) [] o lt k = absurd k
Cells-other n i t a h (s ∷ ss) (c ∷ cs) o lt k = (
  Cell-other n i t a h s c o (omega arith) k.0,
  Cells-other n (suc i) t a h ss cs o (omega arith) k.1,
)

-- What the bucket of the new event holds before the amount is added.
abbrev base : Option ℕ → ℕ → ℕ → ℕ
base s c t = if is_stamped s t then c else 0

Cell-here :
    (n i t a : ℕ) (h : List (ℕ × ℕ)) (s : Option ℕ) (c : ℕ)
    → 0 < n
    → newest h ≤ t
    → t % n ≡ i
    → Cell n i h s c
    → Cell n i ((t, a) ∷ h) (some t) ((base s c t + a) % u64_range)
Cell-here n i t a h none c pos o e k = record {
  fits = (e, omega arith);
  counts = λ now l. ground (arith, k.counts now);
}
Cell-here n i t a h (some s) c pos o e k = record {
  fits = (e, omega arith);
  counts = λ now l. ground (arith, k.counts now, k.fits.0, k.fits.1, lap n s t);
}

Cells-set :
    (n i j t a : ℕ) (h : List (ℕ × ℕ)) (ss : List (Option ℕ)) (cs : List ℕ)
    → 0 < n
    → newest h ≤ t
    → i + j ≡ t % n
    → Cells n i h ss cs
    → Cells n i
        ((t, a) ∷ h)
        (set ss j (some t))
        (set cs j ((base (get_or ss j none) (get_or cs j 0) t + a) % u64_range))
Cells-set n i j t a h [] [] pos o e k = tt
Cells-set n i j t a h [] (c ∷ cs) pos o e k = absurd k
Cells-set n i j t a h (s ∷ ss) [] pos o e k = absurd k
Cells-set n i zero t a h (s ∷ ss) (c ∷ cs) pos o e k = (
  Cell-here n i t a h s c pos o (omega arith) k.0,
  Cells-other n (suc i) t a h ss cs o (omega arith) k.1,
)
Cells-set n i (suc j) t a h (s ∷ ss) (c ∷ cs) pos o e k = (
  Cell-other n i t a h s c o (omega arith) k.0,
  Cells-set n (suc i) j t a h ss cs pos o (omega arith) k.1,
)

set-set : (xs : List ℕ) (i v w : ℕ) → set (set xs i v) i w ≡ set xs i w
set-set [] i v w = refl
set-set (x ∷ xs) zero v w = refl
set-set (x ∷ xs) (suc i) v w = ap (◌∷◌ x) (set-set xs i v w)

set_self :
    (ss : List (Option ℕ)) (i t : ℕ)
    → is_stamped (get_or ss i none) t ≡ true
    → set ss i (some t) ≡ ss
set_self [] i t h = refl
set_self (none ∷ ss) zero t h = cc
set_self (some s ∷ ss) zero t h = ground arith
set_self (s ∷ ss) (suc i) t h = ap (◌∷◌ s) (set_self ss i t h)

get_or-set_self : (xs : List ℕ) (i v : ℕ) → i < length xs → get_or (set xs i v) i 0 ≡ v
get_or-set_self [] i v h = absurd (omega arith)
get_or-set_self (x ∷ xs) zero v h = refl
get_or-set_self (x ∷ xs) (suc i) v h = get_or-set_self xs i v (omega arith)

record Tracks (n : ℕ) (h : List (ℕ × ℕ)) (r : RateWindow) : Type 0 where
  lap_is : length r.buckets ≡ n
  cells : Cells n 0 h r.secs r.buckets

-- `add` writes the bucket of the second, and starts it at 0 if its stamp is another.
add-set :
    (r : RateWindow) (t a : ℕ)
    → 0 < length r.buckets
    → (add r t a).0 ≡ record {
      buckets = set r.buckets (t % length r.buckets) (
          (base
              (get_or r.secs (t % length r.buckets) none)
              (get_or r.buckets (t % length r.buckets) 0)
              t
            + a)
          % u64_range);
      secs = set r.secs (t % length r.buckets) (some t);
    }
unfolding add
add-set r t a pos =
    let i = t % length r.buckets in
    elim (Bool-cases (is_stamped (get_or r.secs i none) t)) [
      | inl h ↦ rw (h, set_self r.secs i t h)
      | inr h ↦ rw (h, set-set, get_or-set_self r.buckets i 0 (omega arith))
    ]

Tracks-add :
    (n t a : ℕ) (h : List (ℕ × ℕ)) (r : RateWindow)
    → 0 < n
    → newest h ≤ t
    → Tracks n h r
    → Tracks n ((t, a) ∷ h) (add r t a).0
Tracks-add n t a h r pos o k = rw (add-set r t a (omega (arith, k.lap_is))) (record {
  lap_is = omega (arith, k.lap_is, length-set r.buckets);
  cells = rw k.lap_is (Cells-set n 0 (t % n) t a h r.secs r.buckets pos o (omega arith) k.cells);
})

Cells-new : (n i c : ℕ) → Cells n i [] (replicate c none) (replicate c 0)
Cells-new n i zero = tt
Cells-new n i (suc c) = (record { fits = tt; counts = λ now o. refl }, Cells-new n (suc i) c)

-- The ring after the additions of a history.
unfoldable pub replay : ℕ → List (ℕ × ℕ) → RateWindow
replay window_secs [] = new window_secs
replay window_secs ((t, a) ∷ h) = (add (replay window_secs h) t a).0

replay-Tracks : (w : ℕ) (h : List (ℕ × ℕ)) → IsOrdered h → Tracks (max w 1) h (replay w h)
unfolding replay new
replay-Tracks w [] o = record {
  lap_is = length-replicate (max w 1) 0;
  cells = Cells-new (max w 1) 0 (max w 1);
}
replay-Tracks w ((t, a) ∷ h) o =
    Tracks-add (max w 1) t a h (replay w h) (omega arith) o.0 (replay-Tracks w h o.1)

-- For a history in time order the ring of fixed size forgets nothing that counts: its total at any
-- time from the newest addition on is the sum of all amounts added less than `max w 1` seconds
-- before that time, modulo 2 ^ 64: the sum itself as long as that fits a `u64`.
pub total-replay :
    (w now : ℕ) (h : List (ℕ × ℕ))
    → IsOrdered h
    → newest h ≤ now
    → total (replay w h) now ≡ amount_within (max w 1) now h % u64_range
unfolding total
total-replay w now h o l =
    let n = max w 1 in
    let r = replay w h in
    let k = replay-Tracks w h o in
    rw k.lap_is (
      sum_live-slots n now 0 h r.secs r.buckets l k.cells
      ∙ ap (λ (c : ℕ). slots_from n 0 c now h % u64_range) k.lap_is
      ∙ ap (λ (c : ℕ). c % u64_range) (slots_from-amount_within n now h (omega arith)))
