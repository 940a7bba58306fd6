-- ===== src/Pipeline/Queue.antt =====
-- The order and the size of a claim (`ORDER BY started_at ASC LIMIT`, AtamuraOKK/dispatch/claim.py).
use atamura_okk.Base.{
  ℕ, zero, suc, ◌+◌, ◌≤◌, ◌≡◌, refl, sym, ap, subst, ◌∙◌, inl, inr, Bool, true, false, ◌&&◌, ◌||◌,
  not, Option, some, List, [], ◌∷◌, arith, ◌==◌, ==_iff, Bool-cases, mem, mem-map_elim, All,
  All-imp, All-sort_by, take, select, sort_by, insert_by, length,
}
use atamura_okk.Store.{CallStatus, Call, Db, get, ids, started_le}
use atamura_okk.Store.Laws.{get-id}
use atamura_okk.Dispatch.Claim.{is_claimable, candidates, claim_ready}
use atamura_okk.Pipeline.Keys.{IsDistinct, HasKeys}
use atamura_okk.Pipeline.Tracks.Claims.{IsHit, select_rows}
use atamura_okk.Pipeline.Leases.{granted_row}

started_le_total : (c d : Call) → started_le c d ≡ false → started_le d c ≡ true
started_le_total c d h = ground arith

started_le_trans :
    (c d e : Call) → started_le c d ≡ true → started_le d e ≡ true → started_le c e ≡ true
started_le_trans c d e h k = ground arith

-- No row is behind a younger one.
abbrev IsOrdered : List Call → Type 0
IsOrdered [] = Unit {0}
IsOrdered (c ∷ cs) = All (λ d. started_le c d ≡ true) cs × IsOrdered cs

All-insert :
    (P : Call → Type 0) (c : Call) (cs : List Call)
    → P c
    → All P cs
    → All P (insert_by started_le c cs)
All-insert P c [] p h = (p, tt)
All-insert P c (d ∷ ds) p h = elim (Bool-cases (started_le c d)) [
  | inl e ↦ rw e (p, h)
  | inr e ↦ rw e (h.0, All-insert P c ds p h.1)
]

insert-IsOrdered :
    (c : Call) (cs : List Call) → IsOrdered cs → IsOrdered (insert_by started_le c cs)
insert-IsOrdered c [] h = (tt, tt)
insert-IsOrdered c (d ∷ ds) h = elim (Bool-cases (started_le c d)) [
  | inl e ↦ rw e ((e, All-imp _ _ (λ x le. started_le_trans c d x e le) ds h.0), h)
  | inr e ↦ rw e (
    All-insert (λ x. started_le d x ≡ true) c ds (started_le_total c d e) h.0,
    insert-IsOrdered c ds h.1,
  )
]

sort_by-IsOrdered : (cs : List Call) → IsOrdered (sort_by started_le cs)
unfolding sort_by
sort_by-IsOrdered [] = tt
sort_by-IsOrdered (c ∷ cs) = insert-IsOrdered c (sort_by started_le cs) (sort_by-IsOrdered cs)

mem-insert :
    (i : ℕ) (c : Call) (cs : List Call)
    → mem i (ids (insert_by started_le c cs)) ≡ ((c.id == i) || mem i (ids cs))
mem-insert i c [] = refl
mem-insert i c (d ∷ ds) = elim (Bool-cases (started_le c d)) [
  | inl e ↦ rw e refl
  | inr e ↦ rw e (rw (mem-insert i c ds) (ground arith))
]

mem-sort_by : (i : ℕ) (cs : List Call) → mem i (ids (sort_by started_le cs)) ≡ mem i (ids cs)
unfolding sort_by
mem-sort_by i [] = refl
mem-sort_by i (c ∷ cs) =
    mem-insert i c (sort_by started_le cs) ∙ ap (λ b. (c.id == i) || b) (mem-sort_by i cs)

mem-select :
    (p : Call → Bool) (i : ℕ) (cs : List Call) {c : Call}
    → get i cs ≡ some c
    → p c ≡ true
    → mem i (ids (select p cs)) ≡ true
unfolding get
mem-select p i [] h ok = cc
mem-select p i (d ∷ ds) {c} h ok = elim (Bool-cases (d.id == i)) [
  | inl e ↦
      let here : some d ≡ some c = rw e at h in
      let hit : p d ≡ true = cc (here, ok) in rw hit (rw e refl)
  | inr e ↦
      let behind = mem-select p i ds (rw e at h) ok in
      elim (Bool-cases (p d)) [ inl q ↦ rw q (rw e behind) | inr q ↦ rw q behind ]
]

-- Whatever is cut off is no older than what is taken.
module _ (R : Call → Type 0) (i j : ℕ) where
  abbrev InOrder : Type 0
  InOrder = (d c : Call) × ((d.id ≡ j) × R d) × ((c.id ≡ i) × R c) × (started_le d c ≡ true)

  take-InOrder :
      (n : ℕ) (cs : List Call)
      → All R cs
      → IsOrdered cs
      → mem j (ids (take n cs)) ≡ true
      → mem i (ids cs) ≡ true
      → mem i (ids (take n cs)) ≡ false
      → InOrder
  take-InOrder zero cs all ordered taken in_list out = absurd (ground arith)
  take-InOrder (suc n) [] all ordered taken in_list out = absurd (ground arith)
  take-InOrder (suc n) (x ∷ xs) all ordered taken in_list out =
      let behind : mem i (ids xs) ≡ true = ground arith in
      elim (Bool-cases (x.id == j)) [
        | inl e ↦
            let both = zip_all xs all.1 ordered.0 in
            let (c, at_i, (row, le)) =
              mem-map_elim (λ r. R r × (started_le x r ≡ true)) (λ r. r.id) i xs behind both in
            (x, c, ((==_iff _ _).0 e, all.0), (at_i, row), le)
        | inr e ↦ take-InOrder n xs all.1 ordered.1 (rw e at taken) behind (ground arith)
      ]
    where
      zip_all :
          (ys : List Call)
          → All R ys
          → All (λ r. started_le x r ≡ true) ys
          → All (λ r. R r × (started_le x r ≡ true)) ys
      zip_all [] h k = tt
      zip_all (y ∷ ys) h k = ((h.0, k.0), zip_all ys h.1 k.1)

pub length-take : (n : ℕ) (cs : List Call) → length (take n cs) ≤ n
length-take zero cs = omega arith
length-take (suc n) [] = omega arith
length-take (suc n) (c ∷ cs) = omega (arith, length-take n cs)

-- Distinct rows whose ids a list holds are no more than the list.
count_one : (i : ℕ) (cs : List Call) → IsDistinct (ids cs) → length (select (λ c. i == c.id) cs) ≤ 1
count_one i [] d = omega arith
count_one i (c ∷ cs) d = elim (Bool-cases (i == c.id)) [
  | inl e ↦ rw e (omega (arith, count_none i cs (ground arith)))
  | inr e ↦ rw e (count_one i cs d.1)
]
  where
    count_none :
        (i : ℕ) (cs : List Call) → mem i (ids cs) ≡ false → length (select (λ c. i == c.id) cs) ≡ 0
    count_none i [] h = refl
    count_none i (c ∷ cs) h = ground (arith, count_none i cs)

count_or :
    (p q : Call → Bool) (cs : List Call)
    → length (select (λ c. p c || q c) cs) ≤ length (select p cs) + length (select q cs)
count_or p q [] = omega arith
count_or p q (c ∷ cs) = ground (arith, count_or p q cs)

count_mem :
    (is : List ℕ) (cs : List Call)
    → IsDistinct (ids cs)
    → length (select (λ c. mem c.id is) cs) ≤ length is
count_mem [] [] d = omega arith
count_mem [] (c ∷ cs) d = count_mem [] cs d.1
count_mem (i ∷ is) cs d =
    omega
      (arith, count_or (λ c. i == c.id) (λ c. mem c.id is) cs, count_one i cs d, count_mem is cs d)

length-ids : (cs : List Call) → length (ids cs) ≡ length cs
length-ids [] = refl
length-ids (c ∷ cs) = ap suc (length-ids cs)

module _ (now : ℕ) (locked : ℕ → Bool) (src dst : CallStatus) (limit : ℕ) (since until : Option ℕ)
    (db : Db) (keys : HasKeys db) where
  abbrev claim : Db × List ℕ
  claim = claim_ready now locked src dst limit since until db

  abbrev test : Call → Bool
  test c = is_claimable src since until c && not (locked c.id)

  abbrev ordered : List Call
  ordered = sort_by started_le (select test db.calls)

  chosen_granted :
      (i : ℕ) {c : Call}
      → get i db.calls ≡ some c
      → mem i claim.1 ≡ false
      → mem i (candidates locked src limit since until db.calls) ≡ false
  unfolding claim_ready
  chosen_granted i {c} found out =
      elim (Bool-cases (mem i (candidates locked src limit since until db.calls))) [
        | inr e ↦ e
        | inl e ↦
            let key : c.id ≡ i = get-id i db.calls found in
            absurd (
              ground (
                arith,
                mem-select (λ r. mem r.id (candidates locked src limit since until db.calls)) i
                    db.calls found (rw key e),
              ))
      ]

  -- A claim takes at most as many calls as its limit says.
  pub claim_ready-limit : length claim.1 ≤ limit
  unfolding claim_ready candidates
  claim_ready-limit = omega (
    arith,
    length-ids (select (λ r. mem r.id (ids (take limit ordered))) db.calls),
    count_mem (ids (take limit ordered)) db.calls keys,
    length-ids (take limit ordered),
    length-take limit ordered,
  )

  -- A call that a claim passes over although it is claimable and not locked is no older than any
  -- call that the claim takes.
  pub claim_ready-oldest :
      (i j : ℕ) {c d : Call}
      → get i db.calls ≡ some c
      → is_claimable src since until c ≡ true
      → locked i ≡ false
      → mem i claim.1 ≡ false
      → get j db.calls ≡ some d
      → mem j claim.1 ≡ true
      → started_le d c ≡ true
  unfolding candidates
  claim_ready-oldest i j {c} {d} found ok free out found' taken =
      let key : c.id ≡ i = get-id i db.calls found in
      let R = IsHit db.calls keys test in
      let (e, found_e, chosen) = granted_row now locked src dst limit since until db keys j taken in
      let in_list : mem i (ids ordered) ≡ true =
        mem-sort_by i (select test db.calls) ∙ mem-select test i db.calls found (ground arith) in
      let (d', c', (at_j, (row_d, _)), (at_i, (row_c, _)), le) =
        take-InOrder R i j limit ordered
          (All-sort_by R started_le (select test db.calls) (select_rows db.calls keys test))
          (sort_by-IsOrdered (select test db.calls)) chosen in_list (chosen_granted i found out) in
      let same_d : some d' ≡ some d =
        sym (subst (λ k. get k db.calls ≡ some d') at_j row_d) ∙ found' in
      let same_c : some c' ≡ some c =
        sym (subst (λ k. get k db.calls ≡ some c') at_i row_c) ∙ found in
      cc (same_d, same_c, le)
