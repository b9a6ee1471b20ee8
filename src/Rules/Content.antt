-- ===== src/Rules/Content.antt =====
-- `ContentMatch` of src/rules.rs: the window that a content term may look at, and where it matches.
pub mod Within
use argus_ips.Address.{Bytes}
use argus_ips.Base.{
  ℕ, suc, ◌+◌, ◌-◌, ◌/◌, ◌%◌, min, max, ℤ, pos, pos_part, ◌+ℤ◌, as_i64, saturate_i64,
  saturating_add, Bool, true, false, not, ◌&&◌, ◌||◌, List, [], ◌∷◌, ◌++◌, Option, none, some,
  ◌>>=◌, length, take, slice, ltb, leb, if◌then◌else◌,
}
use argus_ips.Rules.Search.{Memchr, find_subslice, find_nocase}
use argus_ips.Rules.Vars.{Vars, resolve}

-- The crates that search: `memchr`, `regex`, and `fancy-regex`, whose search over a text gives
-- `none` when it is abandoned.
pub record Engines : Type 1 where
  pub Regex : Type 0
  pub Fancy : Type 0
  pub chars : Memchr
  pub find : Regex → Bytes → Option (ℕ × ℕ)
  pub find_at : Regex → Bytes → ℕ → Option (ℕ × ℕ)
  pub find_from_pos : Fancy → Bytes → ℕ → Option (Option (ℕ × ℕ))

abbrev pub is_ascii : Bytes → Bool
is_ascii [] = true
is_ascii (b ∷ bs) = ltb b 128 && is_ascii bs

-- `b as char` for each byte, as the text's UTF-8.
abbrev pub latin_text : Bytes → Bytes
latin_text [] = []
latin_text (b ∷ bs) =
    if ltb b 128 then b ∷ latin_text bs else (192 + b / 64) ∷ (128 + b % 64) ∷ latin_text bs

abbrev pub count_high : Bytes → ℕ
count_high [] = 0
count_high (b ∷ bs) = if ltb b 128 then count_high bs else suc (count_high bs)

-- `chars().count()`: every byte but the continuations.
abbrev pub count_chars : Bytes → ℕ
count_chars [] = 0
count_chars (b ∷ bs) = if leb 128 b && ltb b 192 then count_chars bs else suc (count_chars bs)

-- The offsets of a match in the text, as offsets in the bytes.
abbrev pub to_bytes : Bytes → Option (ℕ × ℕ) → Option (ℕ × ℕ)
to_bytes text none = none
to_bytes text (some r) = some (count_chars (take r.0 text), count_chars (take r.1 text))

module _ (e : Engines) where
  -- `Backtracking::find_from`; `none` is an abandoned search.
  abbrev pub find_from : e.Fancy → Bytes → ℕ → Option (Option (ℕ × ℕ))
  find_from re hay start =
      let from : ℕ = min start (length hay) in
      if is_ascii hay
      then e.find_from_pos re hay from
      else (e.find_from_pos re (latin_text hay) (from + count_high (take from hay)) >>= λ found.
          some (to_bytes (latin_text hay) found))

  pub data Pattern : Type 0 where
    literal no_case : Bytes → Pattern
    regex : e.Regex → Pattern
    backtrack : e.Fancy → Pattern

  pub record ContentMatch : Type 0 where
    pub pattern : Pattern
    pub negate : Bool
    pub offset : ℕ
    pub depth : Option ℕ
    pub distance : Option ℤ
    pub within : Option ℕ
    pub resume : Bool
    pub var_offset : Option ℕ
    pub var_depth : Option ℕ
    pub var_distance : Option ℕ
    pub var_within : Option ℕ

  abbrev pub is_some {ℓ} : {A : Type ℓ} → Option A → Bool
  is_some none = false
  is_some (some a) = true

  abbrev pub is_relative : ContentMatch → Bool
  is_relative c =
      is_some c.distance
      || is_some c.within
      || c.resume
      || is_some c.var_distance
      || is_some c.var_within

  -- A number that may come from a variable, not below zero.
  abbrev pub amount : ℤ → Option ℕ → Vars → Option ℕ
  amount number var vars = resolve number var vars >>= λ v. some (pos_part v)

  -- `within` and `depth`: a limit, no limit, or a variable that nothing has set.
  abbrev pub limit : Option ℕ → Option ℕ → Vars → Option (Option ℕ)
  limit (some w) var vars = amount (as_i64 w) var vars >>= λ v. some (some v)
  limit none (some v) vars = amount (pos 0) (some v) vars >>= λ v. some (some v)
  limit none none vars = some none

  abbrev pub end_of : Option ℕ → ℕ → ℕ → ℕ
  end_of none base len = len
  end_of (some w) base len = min (saturating_add base w) len

  -- The start of a relative term: the cursor moved by the distance, kept inside the buffer.
  abbrev pub relative_start : ℕ → ℤ → ℕ → ℕ
  relative_start cursor distance len = min (pos_part (saturate_i64 (as_i64 cursor +ℤ distance))) len

  abbrev pub unwrap_or_zero : Option ℤ → ℤ
  unwrap_or_zero none = pos 0
  unwrap_or_zero (some v) = v

  -- The window, once the values are known.
  abbrev pub window_of : ContentMatch → ℕ → ℕ → ℤ → Option ℕ → ℕ → Option ℕ → ℕ × ℕ
  window_of c len cursor distance within offset depth =
      if is_relative c
      then (relative_start cursor distance len, end_of within cursor len)
      else (min offset len, end_of depth (min offset len) len)

  abbrev pub bounds : ContentMatch → ℕ → ℕ → Vars → Option (ℕ × ℕ)
  bounds c len cursor vars = resolve (unwrap_or_zero c.distance) c.var_distance vars >>= λ distance.
      limit c.within c.var_within vars >>= λ within.
      amount (as_i64 c.offset) c.var_offset vars >>= λ offset.
      limit c.depth c.var_depth vars >>= λ depth.
      some (window_of c len cursor distance within offset depth)

  -- `gave_up`
  abbrev pub gave_up : ContentMatch → ℕ → Option (ℕ × ℕ)
  gave_up c at = if c.negate then some (at, at) else none

  -- A search that may have been abandoned.
  abbrev pub found_or : Option (Option (ℕ × ℕ)) → Option (ℕ × ℕ) → Option (ℕ × ℕ)
  found_or none default = default
  found_or (some found) default = found

  abbrev pub moved : ℕ → Option (ℕ × ℕ) → Option (ℕ × ℕ)
  moved start none = none
  moved start (some r) = some (start + r.0, start + r.1)

  abbrev pub literal_at : ℕ → ℕ → Option ℕ → Option (ℕ × ℕ)
  literal_at start len none = none
  literal_at start len (some i) = some (start + i, start + i + len)

  -- A term that resumes where the last one ended.
  abbrev pub find_resumed : ContentMatch → Pattern → Bytes → ℕ → Option (ℕ × ℕ)
  find_resumed c (regex re) bs from = e.find_at re bs from
  find_resumed c (backtrack re) bs from = found_or (find_from re bs from) (gave_up c from)
  find_resumed c (literal needle) bs from = none
  find_resumed c (no_case needle) bs from = none

  -- The search of a window that begins at `start`.
  abbrev pub find_in : ContentMatch → Pattern → Bytes → ℕ → Option (ℕ × ℕ)
  find_in c (literal needle) window start =
      literal_at start (length needle) (find_subslice window needle)
  find_in c (no_case needle) window start =
      literal_at start (length needle) (find_nocase e.chars window needle)
  find_in c (regex re) window start = moved start (e.find re window)
  find_in c (backtrack re) window start = elim (find_from re window 0) [
    | none ↦ gave_up c start
    | some found ↦ moved start found
  ]

  abbrev pub find_content : ContentMatch → Bytes → ℕ → Vars → Option (ℕ × ℕ)
  find_content c bs cursor vars =
      if c.resume
      then find_resumed c c.pattern bs (min cursor (length bs))
      else (bounds c (length bs) cursor vars >>= λ r.
          if ltb r.1 r.0 then none else find_in c c.pattern (slice bs r.0 r.1) r.0)
