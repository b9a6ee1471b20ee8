-- ===== src/Address.antt =====
-- `IpAddr` of src/packet.rs, and the equality that its `derive` line gives.
use text.Mathlib.Text.{◌==◌ as str_eq}
use text.Mathlib.TextEquality.{eq_iff}
use Prim.Native.String.{String}
use argus_ips.Base.{ℕ, Bool, true, false, ◌&&◌, List, [], ◌∷◌, ◌≡◌, ◌↔◌, ◌==◌, Eq, arith}

abbrev pub Bytes : Type 0
Bytes = List ℕ

pub data IpAddr : Type 0 where
  v4 : Bytes → IpAddr
  v6 : Bytes → IpAddr

abbrev pub bytes_eq : Bytes → Bytes → Bool
bytes_eq [] [] = true
bytes_eq (x ∷ xs) (y ∷ ys) = x == y && bytes_eq xs ys
bytes_eq [] (y ∷ ys) = false
bytes_eq (x ∷ xs) [] = false

pub bytes_eq_iff : (a b : Bytes) → (bytes_eq a b ≡ true) ↔ (a ≡ b)
bytes_eq_iff [] [] = ground arith
bytes_eq_iff (x ∷ a) (y ∷ b) = ground (arith, bytes_eq_iff a b)
bytes_eq_iff [] (y ∷ b) = ground arith
bytes_eq_iff (x ∷ a) [] = ground arith

abbrev pub addr_eq : IpAddr → IpAddr → Bool
addr_eq (v4 a) (v4 b) = bytes_eq a b
addr_eq (v6 a) (v6 b) = bytes_eq a b
addr_eq (v4 a) (v6 b) = false
addr_eq (v6 a) (v4 b) = false

pub addr_eq_iff : (a b : IpAddr) → (addr_eq a b ≡ true) ↔ (a ≡ b)
addr_eq_iff (v4 a) (v4 b) = ground (arith, bytes_eq_iff a b)
addr_eq_iff (v6 a) (v6 b) = ground (arith, bytes_eq_iff a b)
addr_eq_iff (v4 a) (v6 b) = ground arith
addr_eq_iff (v6 a) (v4 b) = ground arith

instance abbrev pub addr_eq_instance : Eq IpAddr
addr_eq_instance = record { beq = addr_eq; beq_iff = addr_eq_iff }

instance abbrev pub string_eq : Eq String
string_eq = record { beq = str_eq; beq_iff = eq_iff }

-- Pairs of keys, as `derive` compares them.
abbrev pub pair_eq {ℓ} : {A B : Type ℓ} ⦃a : Eq A⦄ ⦃b : Eq B⦄ → A × B → A × B → Bool
pair_eq ⦃a⦄ ⦃b⦄ x y = a.beq x.0 y.0 && b.beq x.1 y.1

pub pair_eq_iff {ℓ} :
    {A B : Type ℓ} ⦃a : Eq A⦄ ⦃b : Eq B⦄ (x y : A × B) → (pair_eq x y ≡ true) ↔ (x ≡ y)
pair_eq_iff ⦃a⦄ ⦃b⦄ x y = ground (arith, a.beq_iff x.0 y.0, b.beq_iff x.1 y.1)

instance abbrev pub pair_eq_instance {ℓ} : {A B : Type ℓ} ⦃a : Eq A⦄ ⦃b : Eq B⦄ → Eq (A × B)
pair_eq_instance = record { beq = pair_eq; beq_iff = pair_eq_iff }
