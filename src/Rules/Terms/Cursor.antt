-- ===== src/Rules/Terms/Cursor.antt =====
-- The walk of a rule's terms (src/rules.rs): the cursor never leaves the bytes that are read.
use argus_ips.Address.{Bytes}
use argus_ips.Base.{
  Outcome, panics, misses, gives, ◌>>!◌, of_option, Given, Given-bind, Given-if, ℕ, ◌<◌, ◌≤◌, Bool,
  true, false, List, [], ◌∷◌, Option, none, some, length, set, length-set, leb, leb→le,
  if◌then◌else◌, ◌≡◌, refl, ◌∙◌, arith,
}
use argus_ips.Rules.Content.{Engines, find_content}
use argus_ips.Rules.Content.Within.{EndsBy, FoundBy, find_content-EndsBy}
use argus_ips.Rules.Base64.{base64_eval}
use argus_ips.Rules.Header.{len_holds}
use argus_ips.Rules.Number.{
  ByteJump, ByteExtract, ByteMath, jump_target, jump_eval, extract_value, extract_eval, math_value,
  math_eval, test_eval, data_at_holds,
}
use argus_ips.Rules.Terms.{
  Reading, Term, transform, extract, math, base64, content, byte_test, byte_jump, buffer_len,
  data_at, after_content, pass_if, step, walk, start_reading,
}
use argus_ips.Rules.Vars.{Vars, max_vars}

-- The cursor stands in the bytes or at their end, and there is a cell for every variable.
abbrev pub IsReading : Reading → Type 0
IsReading s = (s.cursor ≤ length s.view) × (length s.vars ≡ max_vars)

abbrev pub IsReadingIf : Outcome Reading → Type 0
IsReadingIf panics = Unit
IsReadingIf misses = Unit
IsReadingIf (gives s) = IsReading s

jump_eval-bound :
    (j : ByteJump) (bs : Bytes) (cursor : ℕ) → Given (λ n. n ≤ length bs) (jump_eval j bs cursor)
jump_eval-bound j bs cursor =
    Given-bind (λ n. n ≤ length bs) (jump_target j bs cursor)
      (λ dest. if leb dest (length bs) then gives dest else misses)
      (λ dest _.
        Given-if (λ n. n ≤ length bs) (leb dest (length bs)) dest (leb→le dest (length bs)))

extract_eval-length :
    (x : ByteExtract) (bs : Bytes) (cursor : ℕ) (vars : Vars)
    → Given (λ v. length v ≡ length vars) (extract_eval x bs cursor vars)
extract_eval-length x bs cursor vars =
    Given-bind (λ v. length v ≡ length vars) (extract_value x bs cursor)
      (λ n. gives (set vars x.var (some n))) (λ n _. length-set vars x.var (some n))

math_eval-length :
    (m : ByteMath) (bs : Bytes) (cursor : ℕ) (vars : Vars)
    → Given (λ v. length v ≡ length vars) (math_eval m bs cursor vars)
math_eval-length m bs cursor vars =
    Given-bind (λ v. length v ≡ length vars) (math_value m bs cursor vars)
      (λ n. gives (set vars m.var (some n))) (λ n _. length-set vars m.var (some n))

move_to :
    (s : Reading) (o : Outcome ℕ)
    → IsReading s
    → Given (λ n. n ≤ length s.view) o
    → IsReadingIf (o >>! λ next. gives (record s { cursor = next }))
move_to s panics h k = _
move_to s misses h k = _
move_to s (gives n) h k = (k, h.1)

remember :
    (s : Reading) (o : Outcome Vars)
    → IsReading s
    → Given (λ v. length v ≡ length s.vars) o
    → IsReadingIf (o >>! λ next. gives (record s { vars = next }))
remember s panics h k = _
remember s misses h k = _
remember s (gives v) h k = (h.0, k ∙ h.1)

decoded_view :
    (s : Reading) (o : Option Bytes)
    → IsReading s
    → IsReadingIf (of_option o >>! λ decoded. gives (record s { view = decoded; cursor = 0 }))
decoded_view s none h = _
decoded_view s (some bs) h = (omega arith, h.1)

module _ (e : Engines)
    (one : (b : ℕ) (w : Bytes) (d : ℕ) → e.chars.memchr b w ≡ some d → d < length w)
    (two : (a b : ℕ) (w : Bytes) (d : ℕ) → e.chars.memchr2 a b w ≡ some d → d < length w)
    (find_law : (re : e.Regex) (w : Bytes) → EndsBy (length w) (e.find re w))
    (find_at_law : (re : e.Regex) (w : Bytes) (at : ℕ) → EndsBy (length w) (e.find_at re w at))
    (fancy_law : (re : e.Fancy) (w : Bytes) (at : ℕ)
      → FoundBy (length w) (e.find_from_pos re w at)) where
  pass_if-IsReading : (b : Bool) (s : Reading) → IsReading s → IsReadingIf (pass_if e b s)
  pass_if-IsReading true s h = h
  pass_if-IsReading false s h = _

  passed : (s : Reading) (o : Outcome Bool) → IsReading s → IsReadingIf (o >>! λ b. pass_if e b s)
  passed s panics h = _
  passed s misses h = _
  passed s (gives b) h = pass_if-IsReading b s h

  after_content-IsReading :
      (negate : Bool) (s : Reading) (o : Option (ℕ × ℕ))
      → IsReading s
      → EndsBy (length s.view) o
      → IsReadingIf (of_option (after_content e negate s o))
  after_content-IsReading true s none h k = h
  after_content-IsReading false s none h k = _
  after_content-IsReading true s (some r) h k = _
  after_content-IsReading false s (some r) h k = (k, h.1)

  step-IsReading : (t : Term e) (s : Reading) → IsReading s → IsReadingIf (step e t s)
  step-IsReading (transform t) s h = h
  step-IsReading (extract x) s h =
      remember s (extract_eval x s.view s.cursor s.vars) h
        (extract_eval-length x s.view s.cursor s.vars)
  step-IsReading (math m) s h =
      remember s (math_eval m s.view s.cursor s.vars) h (math_eval-length m s.view s.cursor s.vars)
  step-IsReading (base64 b) s h = decoded_view s (base64_eval b s.view s.cursor) h
  step-IsReading (content c) s h =
      after_content-IsReading c.negate s (find_content e c s.view s.cursor s.vars) h
        (find_content-EndsBy e one two find_law find_at_law fancy_law c s.view s.cursor s.vars)
  step-IsReading (byte_test t) s h = passed s (test_eval t s.view s.cursor s.vars) h
  step-IsReading (byte_jump j) s h =
      move_to s (jump_eval j s.view s.cursor) h (jump_eval-bound j s.view s.cursor)
  step-IsReading (buffer_len t) s h = pass_if-IsReading (len_holds t (length s.view)) s h
  step-IsReading (data_at d) s h =
      pass_if-IsReading (data_at_holds d (length s.view) s.cursor s.vars) s h

  walk_from :
      (ts : List (Term e)) (o : Outcome Reading) → IsReadingIf o → IsReadingIf (o >>! walk e ts)
  walk_from ts panics h = _
  walk_from ts misses h = _
  walk_from [] (gives s) h = h
  walk_from (t ∷ ts) (gives s) h = walk_from ts (step e t s) (step-IsReading t s h)

  -- When the crates return offsets inside what they were given to search: at every state that any
  -- terms of a rule reach from the start of a buffer, the cursor stands inside the bytes that are
  -- read then, the decoded ones after `base64_decode`, or at their end, and there are still
  -- `MAX_VARS` cells for variables.
  pub walk-IsReading :
      (ts : List (Term e)) (bs : Bytes) → IsReadingIf (walk e ts (start_reading e bs))
  walk-IsReading ts bs = walk_from ts (gives (start_reading e bs)) (omega arith, refl)
