-- ===== src/Rules/Flowbits/Parts/Storage.antt =====
-- Where `FlowBits` keeps the progress of the rules (src/rules.rs): a sorted list of records, and past
-- `DENSE_AFTER` of them a table.
use argus_ips.Base.{
  ℕ, zero, suc, ◌+◌, ◌<◌, ◌≤◌, max, Bool, true, false, not, ◌&&◌, List, [], ◌∷◌, Option, none, some,
  ◌>>=◌, length, get_elem?, get_or, set as list_set, replicate, length-set, length-replicate,
  get_or-set_self, get_or-set_ne, ltb, leb, lt→ltb, ◌==◌, decide_eq, if_same, if_differ, if_true,
  if_false, if◌then◌else◌, ◌≡◌, refl, sym, ap, ◌∙◌, inl, inr, arith, Bool-cases,
}
use mathlib.Core.Path.{subst}
use argus_ips.Rules.Flowbits.{
  FlowBits, mark_mask, mark_part, mark_dense, mark_sparse, has_partial, partial_of, put_partial,
  put_table, fill_table, dense_after,
}

-- The progress of a rule, wherever it is kept.
abbrev pub progress : FlowBits → ℕ → ℕ
progress f id = elim f.dense [ none ↦ partial_of id f.partials | some table ↦ get_or table id 0 ]

-- Records in order of their ids, which stand from lo up to and without hi.
abbrev pub IsSorted : ℕ → ℕ → List (ℕ × ℕ) → Type 0
IsSorted lo hi [] = Unit
IsSorted lo hi ((c, m) ∷ ps) = (lo ≤ c) × (c < hi) × IsSorted (c + 1) hi ps

abbrev pub IsStoredIn : ℕ → Option (List ℕ) → List (ℕ × ℕ) → Type 0
IsStoredIn k none ps = IsSorted 0 k ps
IsStoredIn k (some table) ps = k ≤ length table

IsSorted-if :
    (lo hi : ℕ) (b : Bool) (ps qs : List (ℕ × ℕ))
    → (b ≡ true → IsSorted lo hi ps)
    → (b ≡ false → IsSorted lo hi qs)
    → IsSorted lo hi (if b then ps else qs)
IsSorted-if lo hi true ps qs f g = f refl
IsSorted-if lo hi false ps qs f g = g refl

same_id : (c id : ℕ) → (c == id) ≡ true → c ≡ id
same_id c id h = ground (arith, h)

below_id : (id c : ℕ) → ltb id c ≡ true → id + 1 ≤ c
below_id id c h = ground (arith, h)

above_id : (id c : ℕ) → (c == id) ≡ false → ltb id c ≡ false → c + 1 ≤ id
above_id id c h k = ground (arith, h, k)

put_partial-IsSorted :
    (ps : List (ℕ × ℕ)) (id v lo hi : ℕ)
    → lo ≤ id
    → id < hi
    → IsSorted lo hi ps
    → IsSorted lo hi (put_partial id v ps)
put_partial-IsSorted [] id v lo hi h k s = (h, k, _)
put_partial-IsSorted ((c, m) ∷ ps) id v lo hi h k s =
    IsSorted-if lo hi (c == id) _ _ (λ e. s)
      (λ e.
        IsSorted-if lo hi (ltb id c) _ _ (λ b. (h, k, (omega (arith, below_id id c b), s.1, s.2)))
          (λ b. (s.0, s.1, put_partial-IsSorted ps id v (c + 1) hi (above_id id c e b) k s.2)))

partial_of-put_partial :
    (ps : List (ℕ × ℕ)) (id v c : ℕ)
    → partial_of c (put_partial id v ps) ≡ (if id == c then v else partial_of c ps)
partial_of-put_partial [] id v c = ground arith
partial_of-put_partial ((d, m) ∷ ps) id v c = ground (arith, partial_of-put_partial ps id v c)

get_or-set :
    (t : List ℕ) (i v c : ℕ)
    → i < length t
    → get_or (list_set t i v) c 0 ≡ (if i == c then v else get_or t c 0)
get_or-set t i v c h = elim (decide_eq i c) [
  | inl e ↦
      ap (λ j. get_or (list_set t i v) j 0) (sym e)
      ∙ get_or-set_self t i v 0 h
      ∙ sym (if_same i c _ _ e)
  | inr ne ↦ get_or-set_ne t i c v 0 ne ∙ sym (if_differ i c _ _ ne)
]

put_table-some : (t : List ℕ) (i v : ℕ) → i < length t → put_table t i v ≡ some (list_set t i v)
put_table-some t i v h = ap (λ b. if b then some (list_set t i v) else none) (lt→ltb i (length t) h)

-- One record written, and the others after it.
fill_read :
    (c d lo m r rest a : ℕ)
    → lo ≤ d
    → (lo ≤ c → a ≡ 0)
    → r ≡ (if ltb c (d + 1) then if d == c then m else a else rest)
    → r ≡ (if ltb c lo then a else if d == c then m else if ltb c d then 0 else rest)
fill_read c d lo m r rest a h z e = ground (arith, h, z, e)

fill_table_lem :
    (ps : List (ℕ × ℕ)) (table : List ℕ) (lo : ℕ)
    → IsSorted lo (length table) ps
    → ((c : ℕ) → lo ≤ c → get_or table c 0 ≡ 0)
    → (t : List ℕ) × (fill_table ps table ≡ some t)
      × (length t ≡ length table)
      × ((c : ℕ) → get_or t c 0 ≡ (if ltb c lo then get_or table c 0 else partial_of c ps))
fill_table_lem [] table lo s h = (table, refl, refl, λ c. ground (arith, h c))
fill_table_lem ((d, m) ∷ ps) table lo s h =
    let table' : List ℕ = list_set table d m in
    let n : length table' ≡ length table = length-set table d m in
    let read : (c : ℕ) → get_or table' c 0 ≡ (if d == c then m else get_or table c 0) =
      λ c. get_or-set table d m c s.1 in
    let r =
      fill_table_lem ps table' (d + 1) (subst (λ hi. IsSorted (d + 1) hi ps) (sym n) s.2)
        (λ c l. ground (arith, read c, h c)) in
    (
      r.0,
      ap (λ o. o >>= λ next. fill_table ps next) (put_table-some table d m s.1) ∙ r.1,
      r.2 ∙ n,
      λ c.
          fill_read c d lo m (get_or r.0 c 0) (partial_of c ps) (get_or table c 0) s.0 (h c)
            (r.3 c ∙ ap (λ a. if ltb c (d + 1) then a else partial_of c ps) (read c)),
    )

get_elem?-get_or : (t : List ℕ) (i : ℕ) → i < length t → get_elem? t i ≡ some (get_or t i 0)
get_elem?-get_or [] i h = absurd (omega arith)
get_elem?-get_or (x ∷ t) zero h = refl
get_elem?-get_or (x ∷ t) (suc i) h = get_elem?-get_or t i (omega arith)

mark_dense_lem :
    (f : FlowBits) (table : List ℕ) (id idx total k : ℕ)
    → id < k
    → k ≤ length table
    → (t : List ℕ) × (mark_dense f table id idx total
        ≡ some (record f { dense = some t }, (mark_mask (get_or table id 0) idx total).1))
      × (k ≤ length t)
      × ((c : ℕ)
          → get_or t c 0
            ≡ (if id == c then (mark_mask (get_or table id 0) idx total).0 else get_or table c 0))
mark_dense_lem f table id idx total k h l =
    let v = mark_mask (get_or table id 0) idx total in
    (
      list_set table id v.0,
      ap
          (λ o. o >>= λ mask. some (
            record f { dense = some (list_set table id (mark_mask mask idx total).0) },
            (mark_mask mask idx total).1,
          ))
          (get_elem?-get_or table id (omega arith)),
      omega (arith, length-set table id v.0, l),
      λ c. get_or-set table id v.0 c (omega arith),
    )

get_or-zeros : (k c : ℕ) → ◌≡◌ {A = ℕ} (get_or (replicate k 0) c 0) 0
get_or-zeros zero c = refl
get_or-zeros (suc k) zero = refl
get_or-zeros (suc k) (suc c) = get_or-zeros k c

IsSorted-mono :
    (ps : List (ℕ × ℕ)) (lo hi hi' : ℕ) → hi ≤ hi' → IsSorted lo hi ps → IsSorted lo hi' ps
IsSorted-mono [] lo hi hi' h s = _
IsSorted-mono ((c, m) ∷ ps) lo hi hi' h s =
    (s.0, omega (arith, s.1, h), IsSorted-mono ps (c + 1) hi hi' h s.2)

not_below : (c a b : ℕ) → (if ltb c 0 then a else b) ≡ b
not_below c a b = ground arith

-- The call never runs off the table; it updates the rule's own progress and no other's.
pub mark_part-progress :
    (f : FlowBits) (o : Option (List ℕ)) (id idx total k : ℕ)
    → id < k
    → IsStoredIn k o f.partials
    → let g : FlowBits = record f { dense = o } in
      (f' : FlowBits) × (mark_part g id idx total k
        ≡ some (f', (mark_mask (progress g id) idx total).1))
      × ((c : ℕ)
          → progress f' c
            ≡ (if id == c then (mark_mask (progress g id) idx total).0 else progress g c))
      × IsStoredIn k f'.dense f'.partials
mark_part-progress f (some table) id idx total k h s =
    let r = mark_dense_lem (record f { dense = some table }) table id idx total k h s in
    (record f { dense = some r.0 }, r.1, r.3, r.2)
mark_part-progress f none id idx total k h s =
    elim (Bool-cases (leb dense_after (length f.partials) && not (has_partial id f.partials))) [
      | inl e ↦
          let g : FlowBits = record f { dense = none } in
          let zeros : List ℕ = replicate (max k (id + 1)) 0 in
          let n : length zeros ≡ max k (id + 1) = length-replicate {A = ℕ} (max k (id + 1)) 0 in
          let t =
            fill_table_lem f.partials zeros 0
              (IsSorted-mono f.partials 0 k (length zeros) (omega (arith, n)) s)
              (λ c l. get_or-zeros (max k (id + 1)) c) in
          let v : get_or t.0 id 0 ≡ partial_of id f.partials = t.3 id ∙ not_below id _ _ in
          let r =
            mark_dense_lem (record g { partials = [] }) t.0 id idx total k h
              (omega (arith, n, t.2)) in
          (
            record g { partials = []; dense = some r.0 },
            if_true _ _ e
                ∙ ap
                    (λ o. o >>= λ table. mark_dense (record g { partials = [] }) table id idx total)
                    t.1
                ∙ r.1
                ∙ ap
                    (λ m.
                      some
                        (record g { partials = []; dense = some r.0 }, (mark_mask m idx total).1))
                    v,
            λ c.
                r.3 c
                ∙ ap (λ m. if id == c then (mark_mask m idx total).0 else get_or t.0 c 0) v
                ∙ ap
                    (λ a. if id == c then (mark_mask (partial_of id f.partials) idx total).0 else a)
                    (t.3 c ∙ not_below c _ _),
            r.2,
          )
      | inr e ↦ (
        (mark_sparse (record f { dense = none }) id idx total).0,
        if_false _ _ e,
        (λ c.
            partial_of-put_partial f.partials id (mark_mask (partial_of id f.partials) idx total).0
              c),
        put_partial-IsSorted f.partials id (mark_mask (partial_of id f.partials) idx total).0 0 k
            (omega arith) h s,
      )
    ]
