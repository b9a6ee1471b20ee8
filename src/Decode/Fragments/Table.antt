-- ===== src/Decode/Fragments/Table.antt =====
-- The bounds of the reassembly table, after every fragment and every sweep.
use mathlib.Core.Path.{subst}
use argus_ips.Base.{
  leb→le, not_leb, if◌then◌else◌, ◌>>=◌, ◌<◌, sym, max, ◌⊎◌, ◌↔◌, ℕ, ◌+◌, ◌≤◌, Bool, false, ◌||◌,
  List, [], ◌∷◌, ◌++◌, Option, none, some, ◌≡◌, refl, ◌∙◌, length, length-append, leb, arith,
  Bool-cases, Option-cases, inl, inr,
}
use argus_ips.Decode.Fragments.{
  Piece, Partial, DefragLimits, FragKey, frag_key_eq, frag_key_eq_instance, Defragmenter, Fragment,
  is_young, sweep, entry_or, absorb, completed, conclude, is_oversize, is_full, is_exhausted, offer,
}
use argus_ips.Decode.Stats.{DecodeStats}
use argus_ips.HashMap.{
  HashMap, Distinct, get, insert, remove, retain, length-insert, length-remove, length-retain,
  get-insert, get-retain, get-remove, insert-Distinct, remove-Distinct, retain-Distinct,
}

abbrev pub piece_bytes : List Piece → ℕ
piece_bytes [] = 0
piece_bytes ((off, piece) ∷ ps) = length piece + piece_bytes ps

-- One entry stays inside the limits, and its byte count is that of its pieces.
pub record Fits (l : DefragLimits) (p : Partial) : Type 0 where
  pub few : length p.pieces ≤ l.max_fragments_per_datagram
  pub small : p.bytes ≤ l.max_bytes_per_datagram
  pub counted : p.bytes ≡ piece_bytes p.pieces

abbrev pub AllFit : DefragLimits → HashMap FragKey Partial → Type 0
AllFit l [] = Unit
AllFit l ((k, p) ∷ m) = Fits l p × AllFit l m

pub record IsValid (d : Defragmenter) : Type 0 where
  pub bounded : length d.table ≤ d.limits.max_datagrams
  pub distinct : Distinct d.table
  pub fit : AllFit d.limits d.table

AllFit-insert :
    (l : DefragLimits) (k : FragKey) (p : Partial) (m : HashMap FragKey Partial)
    → Fits l p
    → AllFit l m
    → AllFit l (insert k p m)
AllFit-insert l k p [] f h = (f, tt)
AllFit-insert l k p ((j, q) ∷ m) f h = ground (arith, AllFit-insert l k p m f h.1)

AllFit-remove :
    (l : DefragLimits) (k : FragKey) (m : HashMap FragKey Partial)
    → AllFit l m
    → AllFit l (remove k m)
AllFit-remove l k [] h = tt
AllFit-remove l k ((j, q) ∷ m) h = ground (arith, AllFit-remove l k m h.1)

AllFit-retain :
    (l : DefragLimits) (t : Partial → Bool) (m : HashMap FragKey Partial)
    → AllFit l m
    → AllFit l (retain t m)
AllFit-retain l t [] h = tt
AllFit-retain l t ((j, q) ∷ m) h = ground (arith, AllFit-retain l t m h.1)

AllFit-get :
    (l : DefragLimits) (k : FragKey) (m : HashMap FragKey Partial) {p : Partial}
    → AllFit l m
    → get k m ≡ some p
    → Fits l p
AllFit-get l k [] h e = absurd (cc)
AllFit-get l k ((j, q) ∷ m) {p} h e = elim (Bool-cases (frag_key_eq j k)) [
  | inl same ↦ let f : some q ≡ some p = rw same at e in let g : q ≡ p = cc in subst (Fits l) g h.0
  | inr other ↦ AllFit-get l k m h.1 (rw other at e)
]

piece_bytes-append : (ps qs : List Piece) → piece_bytes (ps ++ qs) ≡ piece_bytes ps + piece_bytes qs
piece_bytes-append [] qs = omega arith
piece_bytes-append ((off, piece) ∷ ps) qs = omega (arith, piece_bytes-append ps qs)

absorb-Fits :
    (l : DefragLimits) (p : Partial) (f : Fragment)
    → is_exhausted l p f ≡ false
    → Fits l p
    → Fits l (absorb p f)
unfolding is_exhausted absorb
absorb-Fits l p f e h = record {
  few = ground (arith, length-append p.pieces ((f.offset, f.payload) ∷ []));
  small = ground arith;
  counted = ground (arith, piece_bytes-append p.pieces ((f.offset, f.payload) ∷ []), h.counted);
}

entry_or-Fits :
    (l : DefragLimits) (o : Option Partial) (now : ℕ)
    → ((p : Partial) → o ≡ some p → Fits l p)
    → Fits l (entry_or o now)
entry_or-Fits l none now h = record { few = omega arith; small = omega arith; counted = refl }
entry_or-Fits l (some p) now h = h p refl

insert-IsValid :
    (d : Defragmenter) (k : FragKey) (p : Partial)
    → is_full d k ≡ false
    → Fits d.limits p
    → IsValid d
    → IsValid (record d { table = insert k p d.table })
unfolding is_full
insert-IsValid d k p room f v = record {
  bounded = rw (length-insert k p d.table) (ground arith);
  distinct = insert-Distinct k p d.table v.distinct;
  fit = AllFit-insert d.limits k p d.table f v.fit;
}

remove-IsValid :
    (d : Defragmenter) (k : FragKey) → IsValid d → IsValid (record d { table = remove k d.table })
remove-IsValid d k v = record {
  bounded = omega (arith, length-remove k d.table, v.bounded);
  distinct = remove-Distinct k d.table v.distinct;
  fit = AllFit-remove d.limits k d.table v.fit;
}

pub sweep-IsValid :
    (d : Defragmenter) (now : ℕ) (stats : DecodeStats)
    → IsValid d
    → IsValid (sweep d now stats).0
      × ((sweep d now stats).1.incomplete_datagrams_expired + length (sweep d now stats).0.table
          ≡ stats.incomplete_datagrams_expired + length d.table)
unfolding sweep
sweep-IsValid d now stats v = elim (Bool-cases (leb now d.last_swept)) [
  | inl h ↦ rw h (v, refl)
  | inr h ↦
      let young = is_young now d.limits.timeout_secs in
      let fewer = length-retain young d.table in
      rw h (
        record {
          bounded = omega (arith, fewer, v.bounded);
          distinct = retain-Distinct young d.table v.distinct;
          fit = AllFit-retain d.limits young d.table v.fit;
        },
        omega (arith, fewer),
      )
]

retained :
    (now timeout : ℕ) (p : Partial) (o : Option Partial)
    → ((o >>= λ q. if is_young now timeout q then some q else none) ≡ some p)
      ↔ ((o ≡ some p) × (now < p.first_seen + timeout))
retained now timeout p none = ground arith
retained now timeout p (some q) = ground arith

-- Sweeping keeps the table valid, and the counter of expired datagrams grows by the number dropped
-- from the table. The newest sweep is the later of the last and this one. A datagram is in the
-- table afterwards if and only if it was before and either no time has passed since the last sweep
-- or its first fragment came less than the timeout ago.
pub sweep_lem :
    (d : Defragmenter) (now : ℕ) (stats : DecodeStats) (k : FragKey) (p : Partial)
    → IsValid d
    → let s = sweep d now stats in
      IsValid s.0
      × (s.1.incomplete_datagrams_expired + length s.0.table
          ≡ stats.incomplete_datagrams_expired + length d.table)
      × (s.0.last_swept ≡ max d.last_swept now)
      × ((get k s.0.table ≡ some p) ↔ (
          (get k d.table ≡ some p)
          × ((now ≤ d.last_swept) ⊎ (now < p.first_seen + d.limits.timeout_secs))))
unfolding sweep
sweep_lem d now stats k p v =
    let c = sweep-IsValid d now stats v in
    let e = get-retain (is_young now d.limits.timeout_secs) k d.table v.distinct in
    let r = retained now d.limits.timeout_secs p (get k d.table) in
    elim (Bool-cases (leb now d.last_swept)) [
      | inl h ↦
          let late : now ≤ d.last_swept = leb→le now d.last_swept h in
          (c.0, c.1, ground arith, rw h ((λ q. (q, inl late)), (λ q. q.0)))
      | inr h ↦
          let newer : d.last_swept < now = not_leb now d.last_swept h in
          (
            c.0,
            c.1,
            ground arith,
            rw h (
              (λ q. let u = r.0 (sym e ∙ q) in (u.0, inr u.1)),
              (λ q. e ∙ r.1 (q.0, ground arith)),
            ),
          )
    ]

module _ (d : Defragmenter) (k : FragKey) (f : Fragment) (now : ℕ) (stats : DecodeStats) where
  conclude-IsValid :
      (p : Partial)
      → is_full d k ≡ false
      → Fits d.limits p
      → IsValid d
      → IsValid (conclude d k p stats).state
  unfolding conclude
  conclude-IsValid p room h v = elim (Option-cases (completed d.limits.policy p)) [
    | inl e ↦ rw (e, conclude) (insert-IsValid d k p room h v)
    | inr (payload, e) ↦
        rw (e, conclude)
          (remove-IsValid (record d { table = insert k p d.table }) k
            (insert-IsValid d k p room h v))
  ]

  entry-Fits : IsValid d → Fits d.limits (entry_or (get k d.table) now)
  entry-Fits v =
      entry_or-Fits d.limits (get k d.table) now (λ p e. AllFit-get d.limits k d.table v.fit e)

  -- An offer keeps the table valid: never more datagrams than the limit, and in none of them more
  -- fragments or bytes than the limits.
  pub offer-IsValid : IsValid d → IsValid (offer d k f now stats).state
  unfolding offer
  offer-IsValid v =
      let p = entry_or (get k d.table) now in
      let h = entry-Fits v in
      elim (Bool-cases (is_oversize d.limits f || is_full d k)) [
        | inl refused ↦ rw refused v
        | inr room ↦
            let r : is_full d k ≡ false = ground arith in
            elim (Bool-cases (is_exhausted d.limits p f)) [
              | inl e ↦ rw (room, e) (insert-IsValid d k p r h v)
              | inr e ↦
                  rw (room, e) (conclude-IsValid (absorb p f) r (absorb-Fits d.limits p f e h) v)
            ]
      ]

  conclude_other :
      (p : Partial) (j : FragKey)
      → frag_key_eq k j ≡ false
      → Distinct d.table
      → get j (conclude d k p stats).state.table ≡ get j d.table
  unfolding conclude
  conclude_other p j ne v = elim (Option-cases (completed d.limits.policy p)) [
    | inl e ↦ rw (e, conclude) (get-insert k j p d.table ∙ rw ne refl)
    | inr (payload, e) ↦
        rw (e, conclude)
          (get-remove k j (insert k p d.table) (insert-Distinct k p d.table v)
            ∙ rw ne (get-insert k j p d.table ∙ rw ne refl))
  ]

  -- In a valid table no fragment evicts or changes another datagram that is being assembled.
  pub offer_other :
      (j : FragKey)
      → IsValid d
      → frag_key_eq k j ≡ false
      → get j (offer d k f now stats).state.table ≡ get j d.table
  unfolding offer
  offer_other j v ne =
      let p = entry_or (get k d.table) now in
      elim (Bool-cases (is_oversize d.limits f || is_full d k)) [
        | inl refused ↦ rw refused refl
        | inr room ↦ elim (Bool-cases (is_exhausted d.limits p f)) [
          | inl e ↦ rw (room, e) (get-insert k j p d.table ∙ rw ne refl)
          | inr e ↦ rw (room, e) (conclude_other (absorb p f) j ne v.distinct)
        ]
      ]
