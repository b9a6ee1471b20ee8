-- ===== src/Decode/Fragments/Complete.antt =====
-- Fragments of one payload give that payload back, whatever their order and their overlaps.
use mathlib.Core.List.{reverse, reverse-append}
use native.Mathlib.Nat.{add-zero, zero-add}
use argus_ips.Address.{Bytes}
use argus_ips.Base.{
  ℕ, suc, ◌+◌, ◌<◌, List, [], ◌∷◌, ◌++◌, Option, none, some, ◌≡◌, refl, ◌∙◌, ◌⊎◌, inl, inr, length,
  get_elem?, arith, Option-cases,
}
use argus_ips.Decode.Fragments.Assembly.{cover, first_cover, gather, assemble-gather}
use argus_ips.Decode.Fragments.{
  FragPolicy, first_wins, last_wins, Piece, Partial, arrival, assemble,
}

-- All that a piece says of the payload is true.
abbrev pub IsPart : Bytes → Piece → Type 0
IsPart payload (off, piece) = (p b : ℕ) → cover off piece p ≡ some b → get_elem? payload p ≡ some b

abbrev pub AllParts : Bytes → List Piece → Type 0
AllParts payload [] = Unit
AllParts payload (q ∷ ps) = IsPart payload q × AllParts payload ps

-- Some piece covers the place.
abbrev pub Covers : List Piece → ℕ → Type 0
Covers [] p = ⊥
Covers ((off, piece) ∷ ps) p = ((b : ℕ) × (cover off piece p ≡ some b)) ⊎ Covers ps p

AllParts-append :
    (payload : Bytes) (ps qs : List Piece)
    → AllParts payload ps
    → AllParts payload qs
    → AllParts payload (ps ++ qs)
AllParts-append payload [] qs hp hq = hq
AllParts-append payload (q ∷ ps) qs hp hq = (hp.0, AllParts-append payload ps qs hp.1 hq)

AllParts-reverse :
    (payload : Bytes) (ps : List Piece) → AllParts payload ps → AllParts payload (reverse ps)
AllParts-reverse payload [] h = tt
AllParts-reverse payload (q ∷ ps) h =
    rw (reverse-append (q ∷ []) ps)
      (AllParts-append payload (reverse ps) (q ∷ []) (AllParts-reverse payload ps h.1) (h.0, tt))

Covers-append_left : (ps qs : List Piece) (p : ℕ) → Covers ps p → Covers (ps ++ qs) p
Covers-append_left [] qs p h = absurd h
Covers-append_left ((off, piece) ∷ ps) qs p (inl h) = inl h
Covers-append_left ((off, piece) ∷ ps) qs p (inr h) = inr (Covers-append_left ps qs p h)

Covers-append_right : (ps qs : List Piece) (p : ℕ) → Covers qs p → Covers (ps ++ qs) p
Covers-append_right [] qs p h = h
Covers-append_right ((off, piece) ∷ ps) qs p h = inr (Covers-append_right ps qs p h)

Covers-reverse : (ps : List Piece) (p : ℕ) → Covers ps p → Covers (reverse ps) p
Covers-reverse [] p h = h
Covers-reverse ((off, piece) ∷ ps) p (inl h) =
    rw (reverse-append ((off, piece) ∷ []) ps)
      (Covers-append_right (reverse ps) ((off, piece) ∷ []) p (inl h))
Covers-reverse ((off, piece) ∷ ps) p (inr h) =
    rw (reverse-append ((off, piece) ∷ []) ps)
      (Covers-append_left (reverse ps) ((off, piece) ∷ []) p (Covers-reverse ps p h))

AllParts-arrival :
    (policy : FragPolicy) (payload : Bytes) (ps : List Piece)
    → AllParts payload ps
    → AllParts payload (arrival policy ps)
AllParts-arrival first_wins payload ps h = h
AllParts-arrival last_wins payload ps h = AllParts-reverse payload ps h

Covers-arrival :
    (policy : FragPolicy) (ps : List Piece) (p : ℕ) → Covers ps p → Covers (arrival policy ps) p
Covers-arrival first_wins ps p h = h
Covers-arrival last_wins ps p h = Covers-reverse ps p h

first_cover-part :
    (payload : Bytes) (ps : List Piece) (p : ℕ)
    → AllParts payload ps
    → Covers ps p
    → first_cover ps p ≡ get_elem? payload p
first_cover-part payload [] p h c = absurd c
first_cover-part payload ((off, piece) ∷ ps) p h c = elim (Option-cases (cover off piece p)) [
  | inr (b, e) ↦ rw (e, h.0 p b e) refl
  | inl e ↦ rw e (first_cover-part payload ps p h.1 (later c e))
]
  where
    later : Covers ((off, piece) ∷ ps) p → cover off piece p ≡ none → Covers ps p
    later (inl (b, f)) e = absurd (cc)
    later (inr k) e = k

gather_self :
    (payload : Bytes) (i : ℕ) (f : ℕ → Option ℕ)
    → ((j : ℕ) → j < length payload → f (i + j) ≡ get_elem? payload j)
    → gather f i (length payload) ≡ some payload
gather_self [] i f h = refl
gather_self (b ∷ rest) i f h =
    let first : f i ≡ some b = rw (← add-zero i) (h 0 (omega arith)) in
    let others = gather_self rest (suc i) f (λ j l. rw (shift_index j) (h (suc j) (omega arith))) in
    rw (first, others) refl
  where
    shift_index : (j : ℕ) → suc i + j ≡ i + suc j
    shift_index j = omega arith

-- Once the length is known and pieces cut from one payload cover all of it, reassembly gives that
-- payload, under either policy, in whatever order the pieces came and however they overlap.
pub assemble-AllParts :
    (policy : FragPolicy) (p : Partial) (payload : Bytes)
    → p.total ≡ some (length payload)
    → AllParts payload p.pieces
    → ((i : ℕ) → i < length payload → Covers p.pieces i)
    → assemble policy p ≡ some payload
assemble-AllParts policy p payload e parts covers =
    assemble-gather policy p
    ∙ rw e (
        gather_self payload 0 (first_cover (arrival policy p.pieces)) (λ j h. rw (zero-add j) (
          first_cover-part payload (arrival policy p.pieces) j
            (AllParts-arrival policy payload p.pieces parts)
            (Covers-arrival policy p.pieces j (covers j h)))))
