-- ===== src/Rules/Terms.antt =====
-- The terms of a rule (src/rules.rs): `Rule::content_matches` walks them in order against a cursor.
pub mod Cursor
use argus_ips.Address.{Bytes}
use argus_ips.Base.{
  ℕ, Bool, true, false, ◌&&◌, List, [], ◌∷◌, ◌++◌, Option, none, some, Outcome, panics, misses,
  gives, ◌>>!◌, of_option, length, if◌then◌else◌,
}
use argus_ips.Rules.Base64.{Base64Decode, base64_eval}
use argus_ips.Rules.Content.{Engines, ContentMatch, find_content}
use argus_ips.Rules.Header.{LenTest, len_holds}
use argus_ips.Rules.Number.{
  ByteTest, ByteJump, ByteExtract, ByteMath, DataAt, test_eval, jump_eval, extract_eval, math_eval,
  data_at_holds,
}
use argus_ips.Rules.Transform.{Transform}
use argus_ips.Rules.Vars.{Vars, no_vars}

-- What the terms have reached: the bytes they read, the cursor in them, and the variables.
pub record Reading : Type 0 where
  pub view : Bytes
  pub cursor : ℕ
  pub vars : Vars

module _ (e : Engines) where
  pub data Term : Type 0 where
    transform : Transform → Term
    extract : ByteExtract → Term
    math : ByteMath → Term
    base64 : Base64Decode → Term
    content : ContentMatch e → Term
    byte_test : ByteTest → Term
    byte_jump : ByteJump → Term
    buffer_len : LenTest → Term
    data_at : DataAt → Term

  -- What a content term's search does to the cursor.
  abbrev pub after_content : Bool → Reading → Option (ℕ × ℕ) → Option Reading
  after_content negate s none = if negate then some s else none
  after_content negate s (some r) = if negate then none else some (record s { cursor = r.1 })

  abbrev pub pass_if : Bool → Reading → Outcome Reading
  pass_if b s = if b then gives s else misses

  -- One term; `misses` is a rule that does not match.
  abbrev pub step : Term → Reading → Outcome Reading
  step (content c) s =
      of_option (after_content c.negate s (find_content e c s.view s.cursor s.vars))
  step (byte_test t) s = test_eval t s.view s.cursor s.vars >>! λ ok. pass_if ok s
  step (byte_jump j) s = jump_eval j s.view s.cursor >>! λ next. gives (record s { cursor = next })
  step (buffer_len t) s = pass_if (len_holds t (length s.view)) s
  step (data_at d) s = pass_if (data_at_holds d (length s.view) s.cursor s.vars) s
  step (extract x) s =
      extract_eval x s.view s.cursor s.vars >>! λ next. gives (record s { vars = next })
  step (math m) s = math_eval m s.view s.cursor s.vars >>! λ next. gives (record s { vars = next })
  step (base64 b) s = of_option (base64_eval b s.view s.cursor) >>! λ decoded.
      gives (record s { view = decoded; cursor = 0 })
  step (transform t) s = gives s

  abbrev pub walk : List Term → Reading → Outcome Reading
  walk [] s = gives s
  walk (t ∷ ts) s = step t s >>! λ s'. walk ts s'

  abbrev pub start_reading : Bytes → Reading
  start_reading bs = record { view = bs; cursor = 0; vars = no_vars }

  abbrev pub content_matches : List Term → Bytes → Outcome Bool
  content_matches ts bs = elim (walk ts (start_reading bs)) [
    | panics ↦ panics
    | misses ↦ gives false
    | gives s ↦ gives true
  ]

  -- `split_transforms`
  abbrev pub split_transforms : List Term → List Transform × List Term
  split_transforms [] = ([], [])
  split_transforms (transform x ∷ ts) = (x ∷ (split_transforms ts).0, (split_transforms ts).1)
  split_transforms (t ∷ ts) = ((split_transforms ts).0, t ∷ (split_transforms ts).1)
