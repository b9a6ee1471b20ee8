-- ===== src/Rules/Content/Within.antt =====
-- Where a content term of src/rules.rs matches: inside the buffer.
use argus_ips.Address.{Bytes}
use argus_ips.Base.{
  not_ltb, ℕ, zero, suc, ◌+◌, ◌-◌, ◌<◌, ◌≤◌, min, as_i64, Bool, true, false, [], ◌∷◌, Option, none,
  some, ◌>>=◌, length, take, drop, slice, length-take, ltb, if◌then◌else◌, ◌≡◌, refl, arith,
}
use argus_ips.Rules.Content.{
  Engines, ContentMatch, Pattern, literal, no_case, regex, backtrack, is_ascii, latin_text,
  count_chars, to_bytes, find_from, is_relative, window_of, unwrap_or_zero, end_of, relative_start,
  bounds, limit, amount, gave_up, found_or, moved, literal_at, find_resumed, find_in, find_content,
}
use argus_ips.Rules.Search.{find_subslice, find_nocase}
use argus_ips.Rules.Search.Bounds.{find_subslice-bound, find_nocase-bound}
use argus_ips.Rules.Vars.{Vars, resolve}

count_chars-take : (n : ℕ) (t : Bytes) → count_chars (take n t) ≤ count_chars t
count_chars-take zero t = omega arith
count_chars-take (suc n) [] = omega arith
count_chars-take (suc n) (b ∷ t) = ground (arith, count_chars-take n t)

pub count_chars-latin_text : (bs : Bytes) → count_chars (latin_text bs) ≡ length bs
count_chars-latin_text [] = refl
count_chars-latin_text (b ∷ bs) = ground (arith, count_chars-latin_text bs)

-- A pair of offsets, if there is one, ends by n.
abbrev pub EndsBy : ℕ → Option (ℕ × ℕ) → Type 0
EndsBy n none = Unit
EndsBy n (some r) = r.1 ≤ n

-- The same of a search that may have been abandoned.
abbrev pub FoundBy : ℕ → Option (Option (ℕ × ℕ)) → Type 0
FoundBy n none = Unit
FoundBy n (some found) = EndsBy n found

EndsBy-if :
    (n : ℕ) (b : Bool) (x y : Option (ℕ × ℕ))
    → (b ≡ true → EndsBy n x)
    → (b ≡ false → EndsBy n y)
    → EndsBy n (if b then x else y)
EndsBy-if n true x y f g = f refl
EndsBy-if n false x y f g = g refl

FoundBy-if :
    (n : ℕ) (b : Bool) (x y : Option (Option (ℕ × ℕ)))
    → FoundBy n x
    → FoundBy n y
    → FoundBy n (if b then x else y)
FoundBy-if n true x y f g = f
FoundBy-if n false x y f g = g

FoundBy-bind {ℓ} :
    {A : Type ℓ} (n : ℕ) (m : Option A) (f : A → Option (ℕ × ℕ))
    → ((x : A) → EndsBy n (f x))
    → FoundBy n (m >>= λ x. some (f x))
FoundBy-bind n none f h = _
FoundBy-bind n (some x) f h = h x

EndsBy-bind {ℓ} :
    {A : Type ℓ} (n : ℕ) (m : Option A) (f : A → Option (ℕ × ℕ))
    → ((x : A) → m ≡ some x → EndsBy n (f x))
    → EndsBy n (m >>= f)
EndsBy-bind n none f h = _
EndsBy-bind n (some x) f h = h x refl

EndsBy-four {ℓ} :
    {A B C D : Type ℓ} (n : ℕ) (m1 : Option A) (m2 : Option B) (m3 : Option C) (m4 : Option D)
    (f : A → B → C → D → ℕ × ℕ)
    → ((a : A) (b : B) (c : C) (d : D) → (f a b c d).1 ≤ n)
    → EndsBy n (m1 >>= λ a. m2 >>= λ b. m3 >>= λ c. m4 >>= λ d. some (f a b c d))
EndsBy-four n none m2 m3 m4 f h = _
EndsBy-four n (some a) none m3 m4 f h = _
EndsBy-four n (some a) (some b) none m4 f h = _
EndsBy-four n (some a) (some b) (some c) none f h = _
EndsBy-four n (some a) (some b) (some c) (some d) f h = h a b c d

pub EndsBy-elim : (n : ℕ) (o : Option (ℕ × ℕ)) (r : ℕ × ℕ) → EndsBy n o → o ≡ some r → r.1 ≤ n
EndsBy-elim n none r h e = absurd (cc)
EndsBy-elim n (some s) r h e = let q : s.1 ≡ r.1 = cc in omega (arith, h, q)

EndsBy-mono : (n m : ℕ) (o : Option (ℕ × ℕ)) → n ≤ m → EndsBy n o → EndsBy m o
EndsBy-mono n m none k h = _
EndsBy-mono n m (some r) k h = omega (arith, k, h)

ends : (b : Bool) (p q : ℕ × ℕ) (len : ℕ) → p.1 ≤ len → q.1 ≤ len → (if b then p else q).1 ≤ len
ends true p q len h k = h
ends false p q len h k = k

to_bytes-bound :
    (hay : Bytes) (found : Option (ℕ × ℕ)) → EndsBy (length hay) (to_bytes (latin_text hay) found)
to_bytes-bound hay none = _
to_bytes-bound hay (some p) =
    omega (arith, count_chars-take p.1 (latin_text hay), count_chars-latin_text hay)

module _ (e : Engines) where
  end_of-bound : (w : Option ℕ) (base len : ℕ) → end_of e w base len ≤ len
  end_of-bound none base len = omega arith
  end_of-bound (some w) base len = omega arith

  -- The window of a term ends inside the buffer.
  pub bounds-EndsBy :
      (c : ContentMatch e) (len cursor : ℕ) (vars : Vars) → EndsBy len (bounds e c len cursor vars)
  bounds-EndsBy c len cursor vars =
      EndsBy-four len (resolve (unwrap_or_zero e c.distance) c.var_distance vars)
        (limit e c.within c.var_within vars) (amount e (as_i64 c.offset) c.var_offset vars)
        (limit e c.depth c.var_depth vars) (window_of e c len cursor)
        (λ distance within offset depth.
          ends (is_relative e c) (relative_start e cursor distance len, end_of e within cursor len)
            (min offset len, end_of e depth (min offset len) len) len
            (end_of-bound within cursor len) (end_of-bound depth (min offset len) len))

  gave_up-EndsBy : (c : ContentMatch e) (at : ℕ) → EndsBy at (gave_up e c at)
  gave_up-EndsBy c at = EndsBy-if at c.negate (some (at, at)) none (λ h. omega arith) (λ h. _)

  found_or-EndsBy :
      (n : ℕ) (o : Option (Option (ℕ × ℕ))) (d : Option (ℕ × ℕ))
      → FoundBy n o
      → EndsBy n d
      → EndsBy n (found_or e o d)
  found_or-EndsBy n none d h k = k
  found_or-EndsBy n (some found) d h k = h

  moved-EndsBy :
      (start n : ℕ) (o : Option (ℕ × ℕ)) → EndsBy n o → EndsBy (start + n) (moved e start o)
  moved-EndsBy start n none h = _
  moved-EndsBy start n (some r) h = omega (arith, h)

  literal_at-EndsBy :
      (start len n : ℕ) (o : Option ℕ)
      → ((i : ℕ) → o ≡ some i → i + len ≤ n)
      → EndsBy (start + n) (literal_at e start len o)
  literal_at-EndsBy start len n none h = _
  literal_at-EndsBy start len n (some i) h = omega (arith, h i refl)

  after_fancy :
      (c : ContentMatch e) (start n : ℕ) (o : Option (Option (ℕ × ℕ)))
      → FoundBy n o
      → EndsBy (start + n) (elim o [ none ↦ gave_up e c start | some found ↦ moved e start found ])
  after_fancy c start n none h =
      EndsBy-mono start (start + n) (gave_up e c start) (omega arith) (gave_up-EndsBy c start)
  after_fancy c start n (some found) h = moved-EndsBy start n found h

-- The hypotheses are what the documentation of the crates says of the offsets that they return.
module _ (e : Engines)
    (one : (b : ℕ) (w : Bytes) (d : ℕ) → e.chars.memchr b w ≡ some d → d < length w)
    (two : (a b : ℕ) (w : Bytes) (d : ℕ) → e.chars.memchr2 a b w ≡ some d → d < length w)
    (find_law : (re : e.Regex) (w : Bytes) → EndsBy (length w) (e.find re w))
    (find_at_law : (re : e.Regex) (w : Bytes) (at : ℕ) → EndsBy (length w) (e.find_at re w at))
    (fancy_law : (re : e.Fancy) (w : Bytes) (at : ℕ)
      → FoundBy (length w) (e.find_from_pos re w at)) where
  find_from-FoundBy :
      (re : e.Fancy) (hay : Bytes) (at : ℕ) → FoundBy (length hay) (find_from e re hay at)
  find_from-FoundBy re hay at =
      FoundBy-if (length hay) (is_ascii hay) _ _ (fancy_law re hay (min at (length hay)))
        (FoundBy-bind (length hay) _ _ (λ found. to_bytes-bound hay found))

  find_resumed-EndsBy :
      (c : ContentMatch e) (p : Pattern e) (bs : Bytes) (from : ℕ)
      → from ≤ length bs
      → EndsBy (length bs) (find_resumed e c p bs from)
  find_resumed-EndsBy c (literal needle) bs from k = _
  find_resumed-EndsBy c (no_case needle) bs from k = _
  find_resumed-EndsBy c (regex re) bs from k = find_at_law re bs from
  find_resumed-EndsBy c (backtrack re) bs from k =
      found_or-EndsBy e (length bs) (find_from e re bs from) (gave_up e c from)
        (find_from-FoundBy re bs from)
        (EndsBy-mono from (length bs) (gave_up e c from) k (gave_up-EndsBy e c from))

  find_in-EndsBy :
      (c : ContentMatch e) (p : Pattern e) (window : Bytes) (start : ℕ)
      → EndsBy (start + length window) (find_in e c p window start)
  find_in-EndsBy c (literal needle) window start =
      literal_at-EndsBy e start (length needle) (length window) (find_subslice window needle)
        (find_subslice-bound window needle)
  find_in-EndsBy c (no_case needle) window start =
      literal_at-EndsBy e start (length needle) (length window) (find_nocase e.chars window needle)
        (find_nocase-bound e.chars one two window needle)
  find_in-EndsBy c (regex re) window start =
      moved-EndsBy e start (length window) (e.find re window) (find_law re window)
  find_in-EndsBy c (backtrack re) window start =
      after_fancy e c start (length window) (find_from e re window 0)
        (find_from-FoundBy re window 0)

  -- A match ends inside the buffer.
  pub find_content-EndsBy :
      (c : ContentMatch e) (bs : Bytes) (cursor : ℕ) (vars : Vars)
      → EndsBy (length bs) (find_content e c bs cursor vars)
  find_content-EndsBy c bs cursor vars =
      EndsBy-if (length bs) c.resume _ _
        (λ t. find_resumed-EndsBy c c.pattern bs (min cursor (length bs)) (omega arith))
        (λ t.
          EndsBy-bind (length bs) (bounds e c (length bs) cursor vars)
            (λ w. if ltb w.1 w.0 then none else find_in e c c.pattern (slice bs w.0 w.1) w.0)
            (λ w q.
              let b =
                EndsBy-elim (length bs) (bounds e c (length bs) cursor vars) w
                  (bounds-EndsBy e c (length bs) cursor vars) q in
              EndsBy-if (length bs) (ltb w.1 w.0) _ _ (λ u. _)
                (λ u.
                  EndsBy-mono (w.0 + length (slice bs w.0 w.1)) (length bs)
                    (find_in e c c.pattern (slice bs w.0 w.1) w.0)
                    (omega (arith, length-take (w.1 - w.0) (drop w.0 bs), not_ltb w.1 w.0 u, b))
                    (find_in-EndsBy c c.pattern (slice bs w.0 w.1) w.0))))
