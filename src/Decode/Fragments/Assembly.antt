-- ===== src/Decode/Fragments/Assembly.antt =====
-- `assemble` against a reference: each byte is the one of the first piece that covers it.
use argus_ips.Address.{Bytes}
use native.Mathlib.Nat.{add-zero, zero-add}
use argus_ips.Base.{
  ℕ, zero, suc, ◌+◌, ◌<◌, Bool, true, false, ◌&&◌, List, [], ◌∷◌, Option, none, some, ◌≡◌, ◌≢◌,
  refl, sym, ◌>>=◌, length, get_or, replicate, length-replicate, length-set, get_or-set_self,
  get_or-set_ne, leb, ◌==◌, ==_iff, if◌then◌else◌, arith, Bool-cases, inl, inr,
}
use argus_ips.Decode.Fragments.{
  FragPolicy, Piece, Partial, Buffer, write_byte, write_piece, write_pieces, all_true, arrival,
  assemble_total, assemble,
}

-- The byte that a piece at `at` has for place `p`.
abbrev pub cover : ℕ → Bytes → ℕ → Option ℕ
cover at [] p = none
cover at (b ∷ rest) p = if at == p then some b else cover (suc at) rest p

abbrev pub or_else : Option ℕ → Option ℕ → Option ℕ
or_else none o = o
or_else (some x) o = some x

abbrev pub first_cover : List Piece → ℕ → Option ℕ
first_cover [] p = none
first_cover ((off, piece) ∷ ps) p = or_else (cover off piece p) (first_cover ps p)

-- The bytes of `n` places from `i` on, if each has one.
abbrev pub gather : (ℕ → Option ℕ) → ℕ → ℕ → Option Bytes
gather f i zero = some []
gather f i (suc n) = f i >>= λ b. gather f (suc i) n >>= λ rest. some (b ∷ rest)

-- The two arrays hold what `f` says of a place.
abbrev Holds : Option ℕ → Bool → ℕ → Type 0
Holds none c b = c ≡ false
Holds (some x) c b = (c ≡ true) × (b ≡ x)

record Written (total : ℕ) (f : ℕ → Option ℕ) (s : Buffer) : Type 0 where
  buf_len : length s.buf ≡ total
  covered_len : length s.covered ≡ total
  holds : (p : ℕ) → p < total → Holds (f p) (get_or s.covered p false) (get_or s.buf p 0)

abbrev put : (ℕ → Option ℕ) → ℕ → ℕ → ℕ → Option ℕ
put f at b p = or_else (f p) (if at == p then some b else none)

Written-ext :
    {total : ℕ} {f g : ℕ → Option ℕ} {s : Buffer}
    → ((p : ℕ) → f p ≡ g p)
    → Written total f s
    → Written total g s
Written-ext e w = record {
  buf_len = w.buf_len;
  covered_len = w.covered_len;
  holds = λ p h. rw (← e p) (w.holds p h);
}

module _ (s : Buffer) (at b total : ℕ) (f : ℕ → Option ℕ) (inside : at < total)
    (w : Written total f s) where
  -- At the place itself.
  here :
      (o : Option ℕ)
      → f at ≡ o
      → Holds
          (or_else o (some b))
          (get_or (write_byte s at b).covered at false)
          (get_or (write_byte s at b).buf at 0)
  here none e =
      let c : get_or s.covered at false ≡ false = rw e at (w.holds at inside) in
      rw c (
        get_or-set_self s.covered at true false (omega (arith, w.covered_len)),
        get_or-set_self s.buf at b 0 (omega (arith, w.buf_len)),
      )
  here (some x) e =
      let c : (get_or s.covered at false ≡ true) × (get_or s.buf at 0 ≡ x) =
        rw e at (w.holds at inside) in
      rw c.0 c

  elsewhere :
      (p : ℕ)
      → at ≢ p
      → (o : Option ℕ) → Holds o (get_or s.covered p false) (get_or s.buf p 0)
      → Holds
          (or_else o none)
          (get_or (write_byte s at b).covered p false)
          (get_or (write_byte s at b).buf p 0)
  elsewhere p ne none h =
      ground (arith, get_or-set_ne s.covered at p true false ne, get_or-set_ne s.buf at p b 0 ne)
  elsewhere p ne (some x) h =
      ground (arith, get_or-set_ne s.covered at p true false ne, get_or-set_ne s.buf at p b 0 ne)

  write_byte-Written : Written total (put f at b) (write_byte s at b)
  write_byte-Written = record {
    buf_len = ground (arith, length-set s.buf at b, w.buf_len);
    covered_len = ground (arith, length-set s.covered at true, w.covered_len);
    holds = λ p h. elim (Bool-cases (at == p)) [
      | inl e ↦ rw (e, ← (==_iff at p).0 e) (here (f at) refl)
      | inr e ↦ rw e (elsewhere p (λ q. cc (e, (==_iff at p).1 q)) (f p) (w.holds p h))
    ];
  }

or_else_assoc : (a b c : Option ℕ) → or_else (or_else a b) c ≡ or_else a (or_else b c)
or_else_assoc none b c = refl
or_else_assoc (some x) b c = refl

or_else-none : (a : Option ℕ) → or_else a none ≡ a
or_else-none none = refl
or_else-none (some x) = refl

-- A piece covers nothing before it starts.
cover_before : (at : ℕ) (piece : Bytes) (p : ℕ) → p < at → cover at piece p ≡ none
cover_before at [] p h = refl
cover_before at (b ∷ rest) p h = ground (arith, cover_before (suc at) rest p)

write_piece-Written :
    (total at : ℕ) (piece : Bytes) (s : Buffer) (f : ℕ → Option ℕ)
    → Written total f s
    → Written total (λ p. or_else (f p) (cover at piece p)) (write_piece total at piece s)
unfolding write_piece
write_piece-Written total at [] s f w = Written-ext (λ p. sym (or_else-none (f p))) w
write_piece-Written total at (b ∷ rest) s f w = elim (Bool-cases (leb total at)) [
  | inl past ↦ rw past (record {
    buf_len = w.buf_len;
    covered_len = w.covered_len;
    holds = λ p h. rw (cover_before at (b ∷ rest) p (ground arith), or_else-none) (w.holds p h);
  })
  | inr inside ↦ rw inside (
      Written-ext (step (f)) (
        write_piece-Written total (suc at) rest (write_byte s at b) (put f at b)
          (write_byte-Written s at b total f (ground arith) w)))
]
  where
    step :
        (f : ℕ → Option ℕ) (p : ℕ)
        → or_else (put f at b p) (cover (suc at) rest p) ≡ or_else (f p) (cover at (b ∷ rest) p)
    step f p = elim (Bool-cases (at == p)) [
      | inl e ↦ rw e (or_else_assoc (f p) (some b) (cover (suc at) rest p))
      | inr e ↦ rw e (rw or_else-none refl)
    ]

write_pieces-Written :
    (total : ℕ) (ps : List Piece) (s : Buffer) (f : ℕ → Option ℕ)
    → Written total f s
    → Written total (λ p. or_else (f p) (first_cover ps p)) (write_pieces total ps s)
unfolding write_pieces
write_pieces-Written total [] s f w = Written-ext (λ p. sym (or_else-none (f p))) w
write_pieces-Written total ((off, piece) ∷ ps) s f w =
    Written-ext (λ p. or_else_assoc (f p) (cover off piece p) (first_cover ps p))
      (write_pieces-Written total ps (write_piece total off piece s)
        (λ p. or_else (f p) (cover off piece p)) (write_piece-Written total off piece s f w))

-- The arrays, read from place `i` on.
gather_arrays :
    (n i : ℕ) (f : ℕ → Option ℕ) (cs : List Bool) (bs : Bytes)
    → length cs ≡ n
    → length bs ≡ n
    → ((j : ℕ) → j < n → Holds (f (i + j)) (get_or cs j false) (get_or bs j 0))
    → (if all_true cs then some bs else none) ≡ gather f i n
gather_arrays zero i f [] [] lc lb h = refl
gather_arrays (suc n) i f (c ∷ cs) (b ∷ bs) lc lb h =
    let first : Holds (f i) c b = rw (← add-zero i) (h 0 (omega arith)) in
    let rest =
      gather_arrays n (suc i) f cs bs (omega arith) (omega arith)
        (λ j l. rw (shift_index i j) (h (suc j) (omega arith))) in
    cell (f i) first rest
  where
    shift_index : (i j : ℕ) → suc i + j ≡ i + suc j
    shift_index i j = omega arith

    cell :
        (o : Option ℕ)
        → Holds o c b
        → (if all_true cs then some bs else none) ≡ gather f (suc i) n
        → (if c && all_true cs then some (b ∷ bs) else none)
          ≡ (o >>= λ x. gather f (suc i) n >>= λ r. some (x ∷ r))
    cell none k e = rw k refl
    cell (some x) k e = rw (k.0, k.1, ← e) (join (all_true cs))
      where
        join :
            (t : Bool)
            → (if t then some (x ∷ bs) else none)
              ≡ ((if t then some bs else none) >>= λ r. some (x ∷ r))
        join true = refl
        join false = refl
gather_arrays zero i f (c ∷ cs) bs lc lb h = absurd (omega arith)
gather_arrays zero i f [] (b ∷ bs) lc lb h = absurd (omega arith)
gather_arrays (suc n) i f [] bs lc lb h = absurd (omega arith)
gather_arrays (suc n) i f (c ∷ cs) [] lc lb h = absurd (omega arith)

get_or-replicate {ℓ} : {A : Type ℓ} (n p : ℕ) (a : A) → get_or (replicate n a) p a ≡ a
get_or-replicate zero p a = refl
get_or-replicate (suc n) zero a = refl
get_or-replicate (suc n) (suc p) a = get_or-replicate n p a

assemble_total-gather :
    (ps : List Piece) (total : ℕ) → assemble_total ps total ≡ gather (first_cover ps) 0 total
unfolding assemble_total
assemble_total-gather ps total =
    let start : Buffer = record { buf = replicate total 0; covered = replicate total false } in
    let clear : Written total (λ p. none) start = record {
      buf_len = length-replicate total 0;
      covered_len = length-replicate total false;
      holds = λ p h. get_or-replicate total p false;
    } in
    let w = write_pieces-Written total ps start (λ p. none) clear in
    let s = write_pieces total ps start in
    gather_arrays total 0 (first_cover ps) s.covered s.buf w.covered_len w.buf_len
      (λ j h. rw (zero-add j) (w.holds j h))

pub assemble-gather :
    (policy : FragPolicy) (p : Partial)
    → assemble policy p
      ≡ (p.total >>= λ total. gather (first_cover (arrival policy p.pieces)) 0 total)
unfolding assemble
assemble-gather policy p = at_total p.total
  where
    at_total :
        (o : Option ℕ)
        → (o >>= assemble_total (arrival policy p.pieces))
          ≡ (o >>= λ total. gather (first_cover (arrival policy p.pieces)) 0 total)
    at_total none = refl
    at_total (some t) = assemble_total-gather (arrival policy p.pieces) t
