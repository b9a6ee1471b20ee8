-- ===== src/Rules/Vars.antt =====
-- The values that a rule's terms have produced so far (`Vars` of src/rules.rs), and the arithmetic
-- that reads them.
use argus_ips.Base.{
  ℕ, ◌+◌, ◌-◌, suc, ℤ, pos, negsuc, checked_u64, List, Option, none, some, get_elem?, replicate,
  ltb, if◌then◌else◌,
}

abbrev pub max_vars : ℕ
max_vars = 8

-- An array of `MAX_VARS` cells.
abbrev pub Vars : Type 0
Vars = List (Option ℤ)

abbrev pub no_vars : Vars
no_vars = replicate max_vars none

-- A cell; an index past the array is a panic in the code, and no rule that was parsed has one.
abbrev pub var_at : Vars → ℕ → Option ℤ
var_at vars v = elim (get_elem? vars v) [ none ↦ none | some cell ↦ cell ]

abbrev pub resolve : ℤ → Option ℕ → Vars → Option ℤ
resolve literal none vars = some literal
resolve literal (some v) vars = var_at vars v

-- `shift`: a signed delta, refusing to wrap.
abbrev pub shift : ℕ → ℤ → Option ℕ
shift base (pos d) = checked_u64 (base + d)
shift base (negsuc d) = if ltb base (suc d) then none else some (base - suc d)
