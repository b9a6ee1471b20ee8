-- ===== src/Window/AlertGate.antt =====
-- `AlertGate` of src/window.rs: the least time between two alerts of one kind.
use argus_ips.Base.{
  ℕ, ◌+◌, ◌≤◌, Bool, true, false, List, [], ◌∷◌, Option, none, some, ◌≡◌, refl, ltb, ◌<◌, ◌⊎◌, ◌++◌,
  if◌then◌else◌, arith, inl, inr,
}

pub record AlertGate : Type 0 where
  pub last : Option ℕ

-- `self.last.is_some_and(|t| now_sec.saturating_sub(t) < min_interval_secs)`
is_blocked : AlertGate → ℕ → ℕ → Bool
is_blocked g now_sec min_interval_secs = elim g.last [
  | none ↦ false
  | some t ↦ ltb now_sec (t + min_interval_secs)
]

-- `AlertGate::allow`
pub allow : AlertGate → ℕ → ℕ → AlertGate × Bool
unfolding is_blocked
allow g now_sec min_interval_secs =
    if is_blocked g now_sec min_interval_secs
    then (g, false)
    else (record { last = some now_sec }, true)

-- The times at which a gate lets an alert through, over a sequence of attempts.
pub allowed : AlertGate → ℕ → List ℕ → List ℕ
allowed g gap [] = []
allowed g gap (now ∷ rest) =
    let (g', open_now) = allow g now gap in
    if open_now then now ∷ allowed g' gap rest else allowed g' gap rest

-- Every element is at least `gap` after the one before it, the first after `from`.
abbrev pub IsSpaced : ℕ → Option ℕ → List ℕ → Type 0
IsSpaced gap from [] = Unit
IsSpaced gap none (t ∷ ts) = IsSpaced gap (some t) ts
IsSpaced gap (some s) (t ∷ ts) = (s + gap ≤ t) × IsSpaced gap (some t) ts

allowed-IsSpaced :
    (last : Option ℕ) (gap : ℕ) (times : List ℕ)
    → IsSpaced gap last (allowed (record { last = last }) gap times)
unfolding allowed allow
allowed-IsSpaced last gap [] = tt
allowed-IsSpaced none gap (now ∷ rest) = allowed-IsSpaced (some now) gap rest
allowed-IsSpaced (some t) gap (now ∷ rest) =
    ground (arith, allowed-IsSpaced (some now) gap rest, allowed-IsSpaced (some t) gap rest)

-- Time `t` is one of `ps`, or less than `gap` after one of them.
abbrev pub IsNear : ℕ → List ℕ → ℕ → Type 0
IsNear gap [] t = ⊥
IsNear gap (p ∷ ps) t = ((t ≡ p) ⊎ (t < p + gap)) ⊎ IsNear gap ps t

abbrev pub to_list : Option ℕ → List ℕ
to_list none = []
to_list (some t) = t ∷ []

abbrev pub AllNear : ℕ → List ℕ → List ℕ → Type 0
AllNear gap ps [] = Unit
AllNear gap ps (t ∷ ts) = IsNear gap ps t × AllNear gap ps ts

AllNear-cons : (gap : ℕ) (p : ℕ) (ps ts : List ℕ) → AllNear gap ps ts → AllNear gap (p ∷ ps) ts
AllNear-cons gap p ps [] h = tt
AllNear-cons gap p ps (t ∷ ts) h = (inr h.0, AllNear-cons gap p ps ts h.1)

allowed-AllNear :
    (last : Option ℕ) (gap : ℕ) (times : List ℕ)
    → AllNear gap (to_list last ++ allowed (record { last = last }) gap times) times
unfolding allowed allow
allowed-AllNear last gap [] = tt
allowed-AllNear none gap (now ∷ rest) = (inl (inl refl), allowed-AllNear (some now) gap rest)
allowed-AllNear (some t) gap (now ∷ rest) = ground (
  arith,
  allowed-AllNear (some t) gap rest,
  AllNear-cons gap t (now ∷ allowed (record { last = some now }) gap rest) rest
      (allowed-AllNear (some now) gap rest),
)

-- Whatever the order of the attempts, two alerts that pass are at least the interval apart (the
-- first that passes also from the gate's last alert), and every attempt passes itself or lies
-- less than the interval after an alert that passed.
pub allowed_lem :
    (g : AlertGate) (gap : ℕ) (times : List ℕ)
    → IsSpaced gap g.last (allowed g gap times)
      × AllNear gap (to_list g.last ++ allowed g gap times) times
allowed_lem g gap times = (allowed-IsSpaced g.last gap times, allowed-AllNear g.last gap times)
