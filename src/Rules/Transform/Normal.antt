-- ===== src/Rules/Transform/Normal.antt =====
-- The transforms of src/rules.rs without their shortcuts, and what a second application does.
use argus_ips.Address.{Bytes, bytes_eq, bytes_eq_iff}
use argus_ips.Base.{
  ℕ, Bool, true, false, ◌&&◌, ◌||◌, List, [], ◌∷◌, Option, none, some, ◌==◌, ◌≡◌, refl, sym, ap,
  ◌∙◌, inl, inr, arith, Bool-cases, Option-cases, if_true, if_false,
}
use argus_ips.Rules.Transform.{
  Transform, Digests, percent_decode, url_decode, header_lowercase, strip_whitespace,
  compress_whitespace, sha1, md5, sha256, is_ws, any_byte, escape, plain_byte, decode_loop, changed,
  percent, header_lower, strip, compress, apply, apply_one, apply_transforms,
}

or_left : (a b : Bool) → (a || b) ≡ false → a ≡ false
or_left a b h = ground (arith, h)

or_right : (a b : Bool) → (a || b) ≡ false → b ≡ false
or_right a b h = ground (arith, h)

abbrev some_or {ℓ} : {A : Type ℓ} → Option A → A → A
some_or none a = a
some_or (some b) a = b

some_or-changed : (out bs : Bytes) → some_or (changed out bs) bs ≡ out
some_or-changed out bs = elim (Bool-cases (bytes_eq out bs)) [
  | inl e ↦ rw (changed, e) (sym ((bytes_eq_iff out bs).0 e))
  | inr e ↦ rw (changed, e) refl
]

-- Bytes with no `%`, and no `+` where it is decoded, stay as they are.
no_escape : (b : ℕ) (bs : Bytes) → (b == 37) ≡ false → escape (b ∷ bs) ≡ none
no_escape b [] h = refl
no_escape b (x ∷ []) h = refl
no_escape b (x ∷ y ∷ bs) h = if_false _ _ h

decode_plain :
    (plus : Bool) (bs : Bytes)
    → any_byte (λ b. b == 37 || (plus && b == 43)) bs ≡ false
    → decode_loop plus 0 bs ≡ bs
decode_plain plus [] h = refl
decode_plain plus (b ∷ bs) h =
    let p : (b == 37 || (plus && b == 43)) ≡ false = or_left _ _ h in
    let rest : decode_loop plus 0 bs ≡ bs = decode_plain plus bs (or_right _ _ h) in
    ap
      (λ o. elim o [
        | none ↦ plain_byte plus b ∷ decode_loop plus 0 bs
        | some v ↦ v ∷ decode_loop plus 2 bs
      ])
      (no_escape b bs (or_left _ _ p))
    ∙ ap (λ x. x ∷ decode_loop plus 0 bs) (if_false 32 b (or_right (b == 37) _ p))
    ∙ ap (◌∷◌ b) rest

strip_plain : (bs : Bytes) → any_byte is_ws bs ≡ false → strip bs ≡ bs
strip_plain [] h = refl
strip_plain (b ∷ bs) h =
    if_false _ _ (or_left (is_ws b) _ h) ∙ ap (◌∷◌ b) (strip_plain bs (or_right (is_ws b) _ h))

module _ (d : Digests) where
  -- A transform as a plain_byte function, with no test whether it changes anything.
  abbrev pub transformed : Transform → Bytes → Bytes
  transformed percent_decode bs = decode_loop false 0 bs
  transformed url_decode bs = decode_loop true 0 bs
  transformed header_lowercase bs = header_lower bs
  transformed strip_whitespace bs = strip bs
  transformed compress_whitespace bs = compress bs
  transformed sha1 bs = d.sha1_of bs
  transformed md5 bs = d.md5_of bs
  transformed sha256 bs = d.sha256_of bs

  abbrev pub transformed_all : List Transform → Bytes → Bytes
  transformed_all [] bs = bs
  transformed_all (t ∷ ts) bs = transformed_all ts (transformed t bs)

  apply_one-some_or : (t : Transform) (bs : Bytes) → apply_one d t bs ≡ some_or (apply d t bs) bs
  apply_one-some_or t bs = elim (Option-cases (apply d t bs)) [
    | inl e ↦ rw (apply_one, e) refl
    | inr (x, e) ↦ rw (apply_one, e) refl
  ]

  some_or-percent :
      (plus : Bool) (bs : Bytes) → some_or (percent plus bs) bs ≡ decode_loop plus 0 bs
  some_or-percent plus bs = elim (Bool-cases (any_byte (λ b. b == 37 || (plus && b == 43)) bs)) [
    | inl e ↦ ap (λ o. some_or o bs) (if_true _ _ e) ∙ some_or-changed (decode_loop plus 0 bs) bs
    | inr e ↦ ap (λ o. some_or o bs) (if_false _ _ e) ∙ sym (decode_plain plus bs e)
  ]

  some_or-apply : (t : Transform) (bs : Bytes) → some_or (apply d t bs) bs ≡ transformed t bs
  some_or-apply percent_decode bs = some_or-percent false bs
  some_or-apply url_decode bs = some_or-percent true bs
  some_or-apply header_lowercase bs = some_or-changed (header_lower bs) bs
  some_or-apply strip_whitespace bs = elim (Bool-cases (any_byte is_ws bs)) [
    | inl e ↦ ap (λ o. some_or o bs) (if_true _ _ e)
    | inr e ↦ ap (λ o. some_or o bs) (if_false _ _ e) ∙ sym (strip_plain bs e)
  ]
  some_or-apply compress_whitespace bs = some_or-changed (compress bs) bs
  some_or-apply sha1 bs = refl
  some_or-apply md5 bs = refl
  some_or-apply sha256 bs = refl

  apply_one_lem : (t : Transform) (bs : Bytes) → apply_one d t bs ≡ transformed t bs
  apply_one_lem t bs = apply_one-some_or t bs ∙ some_or-apply t bs

  -- For any digests: applying transforms in turn, with the shortcuts for a transform that would change
  -- nothing, gives what the plain_byte functions give one after the other.
  pub apply_transforms_lem :
      (ts : List Transform) (bs : Bytes) → apply_transforms d ts bs ≡ transformed_all ts bs
  apply_transforms_lem [] bs = refl
  apply_transforms_lem (t ∷ ts) bs =
      ap (apply_transforms d ts) (apply_one_lem t bs) ∙ apply_transforms_lem ts (transformed t bs)
