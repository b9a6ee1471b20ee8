-- ===== src/Window/RateWindow.antt =====
-- `RateWindow` of src/window.rs: a ring of per-second buckets. A stamp of `none` stands for the
-- `i64::MIN` of a bucket that was never used.
pub mod Slots
pub mod Totals
use argus_ips.Base.{
  u64_range, ℕ, suc, ◌+◌, ◌%◌, max, Bool, true, false, List, [], ◌∷◌, Option, none, some, ltb, ◌==◌,
  not, if◌then◌else◌, length, get_or, set, replicate,
}

pub record RateWindow : Type 0 where
  pub buckets : List ℕ
  pub secs : List (Option ℕ)

-- `RateWindow::new`
unfoldable pub new : ℕ → RateWindow
new window_secs =
    let n = max window_secs 1 in record { buckets = replicate n 0; secs = replicate n none }

abbrev pub is_stamped : Option ℕ → ℕ → Bool
is_stamped none now_sec = false
is_stamped (some s) now_sec = s == now_sec

-- What one bucket adds to the total: `s > now_sec - n`.
abbrev pub live_count : ℕ → ℕ → Option ℕ → ℕ → ℕ
live_count n now_sec none count = 0
live_count n now_sec (some s) count = if ltb now_sec (s + n) then count else 0

-- The sum of `u64` counts, which wraps in a release build.
abbrev pub sum_live : ℕ → ℕ → List (Option ℕ) → List ℕ → ℕ
sum_live n now_sec (s ∷ secs) (c ∷ buckets) =
    (live_count n now_sec s c + sum_live n now_sec secs buckets) % u64_range
sum_live n now_sec [] buckets = 0
sum_live n now_sec (s ∷ secs) [] = 0

-- `RateWindow::total`
unfoldable pub total : RateWindow → ℕ → ℕ
total r now_sec = sum_live (length r.buckets) now_sec r.secs r.buckets

-- The stamp test of `add`: a bucket of another second starts again at 0.
unfoldable pub restamp : RateWindow → ℕ → ℕ → RateWindow
restamp r idx now_sec =
    if not (is_stamped (get_or r.secs idx none) now_sec)
    then record r { buckets = set r.buckets idx 0; secs = set r.secs idx (some now_sec) }
    else r

-- `RateWindow::add`: the new state and the total that it returns. The `+=` of the bucket wraps in a
-- release build.
unfoldable pub add : RateWindow → ℕ → ℕ → RateWindow × ℕ
unfolding restamp total
add r now_sec amount =
    let idx = now_sec % length r.buckets in
    let r' = restamp r idx now_sec in
    let count = (get_or r'.buckets idx 0 + amount) % u64_range in
    let r'' = record r' { buckets = set r'.buckets idx count } in (r'', total r'' now_sec)
