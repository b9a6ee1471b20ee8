-- ===== src/HashMap/Laws.antt =====
-- Lookups and sizes after each operation of a table.
use argus_ips.Base.{
  suc, ◌≤◌, Bool, false, [], ◌∷◌, none, some, ◌≡◌, refl, ◌>>=◌, Eq, if◌then◌else◌, length, arith,
}
use argus_ips.HashMap.Defs.{HashMap, get, contains_key, insert, remove, retain, Distinct}

module _ {ℓ} {K V : Type ℓ} ⦃e : Eq K⦄ where
  pub get-insert :
      (k j : K) (v : V) (m : HashMap K V)
      → get j (insert k v m) ≡ (if e.beq k j then some v else get j m)
  get-insert k j v [] = refl
  get-insert k j v ((i, w) ∷ m) =
      ground (arith, e.beq_iff k j, e.beq_iff i k, e.beq_iff i j, get-insert k j v m)

  pub length-insert :
      (k : K) (v : V) (m : HashMap K V)
      → length (insert k v m) ≡ (if contains_key k m then length m else suc (length m))
  length-insert k v [] = refl
  length-insert k v ((i, w) ∷ m) = ground (arith, length-insert k v m)

  pub insert-Distinct : (k : K) (v : V) (m : HashMap K V) → Distinct m → Distinct (insert k v m)
  insert-Distinct k v [] d = (refl, tt)
  insert-Distinct k v ((i, w) ∷ m) d =
      ground (arith, e.beq_iff i k, e.beq_iff k i, get-insert k i v m, insert-Distinct k v m d.1)

  get-remove_ne : (k j : K) (m : HashMap K V) → e.beq k j ≡ false → get j (remove k m) ≡ get j m
  get-remove_ne k j [] h = refl
  get-remove_ne k j ((i, w) ∷ m) h =
      ground (arith, e.beq_iff k j, e.beq_iff i k, e.beq_iff i j, get-remove_ne k j m h)

  pub get-remove :
      (k j : K) (m : HashMap K V)
      → Distinct m
      → get j (remove k m) ≡ (if e.beq k j then none else get j m)
  get-remove k j [] d = ground arith
  get-remove k j ((i, w) ∷ m) d =
      ground (arith, e.beq_iff k j, e.beq_iff i k, e.beq_iff i j, get-remove k j m d.1)

  pub remove-Distinct : (k : K) (m : HashMap K V) → Distinct m → Distinct (remove k m)
  remove-Distinct k [] d = d
  remove-Distinct k ((i, w) ∷ m) d =
      ground (arith, e.beq_iff i k, e.beq_iff k i, get-remove k i m d.1, remove-Distinct k m d.1)

  pub get-retain :
      (p : V → Bool) (k : K) (m : HashMap K V)
      → Distinct m
      → get k (retain p m) ≡ (get k m >>= λ v. if p v then some v else none)
  get-retain p k [] d = refl
  get-retain p k ((i, w) ∷ m) d = ground (arith, e.beq_iff i k, e.beq_iff k i, get-retain p k m d.1)

  pub retain-Distinct : (p : V → Bool) (m : HashMap K V) → Distinct m → Distinct (retain p m)
  retain-Distinct p [] d = d
  retain-Distinct p ((i, w) ∷ m) d = ground (arith, get-retain p i m d.1, retain-Distinct p m d.1)

pub length-retain {ℓ} :
    {K V : Type ℓ} (p : V → Bool) (m : HashMap K V) → length (retain p m) ≤ length m
length-retain p [] = omega arith
length-retain p ((i, w) ∷ m) = ground (arith, length-retain p m)

pub length-remove {ℓ} :
    {K V : Type ℓ} ⦃e : Eq K⦄ (k : K) (m : HashMap K V) → length (remove k m) ≤ length m
length-remove k [] = omega arith
length-remove k ((i, w) ∷ m) = ground (arith, length-remove k m)
