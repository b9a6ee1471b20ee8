-- ===== src/Stream/FlowKey.antt =====
-- `FlowKey` of src/engine.rs: both directions of a connection have one key.
use argus_ips.Address.{Bytes, IpAddr, v4, v6}
use argus_ips.Base.{
  ℕ, Bool, true, false, ◌&&◌, ◌||◌, [], ◌∷◌, ◌≡◌, ◌⊎◌, inl, inr, refl, sym, ap, ◌∙◌, ltb, leb, ◌==◌,
  if◌then◌else◌, arith, Bool-cases,
}

-- `<=` on two arrays, as `derive` gives it.
abbrev pub bytes_le : Bytes → Bytes → Bool
bytes_le [] ys = true
bytes_le (x ∷ xs) [] = false
bytes_le (x ∷ xs) (y ∷ ys) = ltb x y || (x == y && bytes_le xs ys)

-- `<=` on two addresses: every IPv4 address comes before every IPv6 address.
abbrev pub addr_le : IpAddr → IpAddr → Bool
addr_le (v4 a) (v4 b) = bytes_le a b
addr_le (v6 a) (v6 b) = bytes_le a b
addr_le (v4 a) (v6 b) = true
addr_le (v6 a) (v4 b) = false

pub record Endpoint : Type 0 where
  pub ip : IpAddr
  pub port : ℕ

-- `<=` on pairs of an address and a port.
unfoldable pub endpoint_le : Endpoint → Endpoint → Bool
endpoint_le a b =
    if addr_le b.ip a.ip then addr_le a.ip b.ip && leb a.port b.port else addr_le a.ip b.ip

pub record FlowKey : Type 0 where
  pub low : Endpoint
  pub high : Endpoint

-- `FlowKey::new`
unfoldable pub new : IpAddr → ℕ → IpAddr → ℕ → FlowKey
new a_ip a_port b_ip b_port =
    let a : Endpoint = record { ip = a_ip; port = a_port } in
    let b : Endpoint = record { ip = b_ip; port = b_port } in
    if endpoint_le a b then record { low = a; high = b } else record { low = b; high = a }

bytes_le-antisym : (a b : Bytes) → bytes_le a b ≡ true → bytes_le b a ≡ true → a ≡ b
bytes_le-antisym [] [] h k = refl
bytes_le-antisym [] (y ∷ b) h k = absurd (cc)
bytes_le-antisym (x ∷ a) [] h k = absurd (cc)
bytes_le-antisym (x ∷ a) (y ∷ b) h k = ground (arith, bytes_le-antisym a b)

bytes_le-total : (a b : Bytes) → (bytes_le a b || bytes_le b a) ≡ true
bytes_le-total [] b = refl
bytes_le-total (x ∷ a) [] = refl
bytes_le-total (x ∷ a) (y ∷ b) = ground (arith, bytes_le-total a b)

addr_le-antisym : (a b : IpAddr) → addr_le a b ≡ true → addr_le b a ≡ true → a ≡ b
addr_le-antisym (v4 a) (v4 b) h k = ground (arith, bytes_le-antisym a b h k)
addr_le-antisym (v6 a) (v6 b) h k = ground (arith, bytes_le-antisym a b h k)
addr_le-antisym (v4 a) (v6 b) h k = absurd (cc)
addr_le-antisym (v6 a) (v4 b) h k = absurd (cc)

addr_le-total : (a b : IpAddr) → (addr_le a b || addr_le b a) ≡ true
addr_le-total (v4 a) (v4 b) = bytes_le-total a b
addr_le-total (v6 a) (v6 b) = bytes_le-total a b
addr_le-total (v4 a) (v6 b) = refl
addr_le-total (v6 a) (v4 b) = refl

endpoint_le-antisym : (a b : Endpoint) → endpoint_le a b ≡ true → endpoint_le b a ≡ true → a ≡ b
unfolding endpoint_le
endpoint_le-antisym a b h k = ground (arith, addr_le-antisym a.ip b.ip)

endpoint_le-total : (a b : Endpoint) → (endpoint_le a b || endpoint_le b a) ≡ true
unfolding endpoint_le
endpoint_le-total a b = ground (arith, addr_le-total a.ip b.ip)

-- The key of a connection is the same whichever end is named first, and it holds the two ends.
pub new_lem :
    (a_ip : IpAddr) (a_port : ℕ) (b_ip : IpAddr) (b_port : ℕ)
    → let a : Endpoint = record { ip = a_ip; port = a_port } in
      let b : Endpoint = record { ip = b_ip; port = b_port } in
      let k = new a_ip a_port b_ip b_port in
      (k ≡ new b_ip b_port a_ip a_port)
      × ((k ≡ record { low = a; high = b }) ⊎ (k ≡ record { low = b; high = a }))
unfolding new
new_lem a_ip a_port b_ip b_port =
    let a : Endpoint = record { ip = a_ip; port = a_port } in
    let b : Endpoint = record { ip = b_ip; port = b_port } in
    let t = endpoint_le-total a b in
    elim (Bool-cases (endpoint_le a b)) [
      | inl h ↦ elim (Bool-cases (endpoint_le b a)) [
        | inl k ↦
            let same = endpoint_le-antisym a b h k in
            let left : ◌≡◌ {A = FlowKey} (record { low = a; high = b })
                (record { low = b; high = b }) =
              ap (λ (x : Endpoint). record { low = x; high = b }) same in
            let right : ◌≡◌ {A = FlowKey} (record { low = b; high = b })
                (record { low = b; high = a }) =
              ap (λ (x : Endpoint). record { low = b; high = x }) (sym same) in
            rw (h, k) (left ∙ right, inl refl)
        | inr k ↦ rw (h, k) (refl, inl refl)
      ]
      | inr h ↦ let k : endpoint_le b a ≡ true = ground arith in rw (h, k) (refl, inr refl)
    ]
