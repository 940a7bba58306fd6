-- ===== src/Audit/Polled.antt =====
-- AtamuraOKK/audit/batch.py: a poll leaves no deal of an ended batch waiting, and touches no verdict
-- but those that wait.
use atamura_okk.Base.{
  ℕ, ◌≡◌, ◌≢◌, refl, sym, subst, inl, inr, Bool, true, false, List, [], ◌∷◌, arith, ◌==◌, ==_iff,
  mem, All, All-imp, Bool-cases, Option-cases,
}
use atamura_okk.Audit.Deals.{Deal, AuditSettings, AuditVerdict, dup_kind}
use atamura_okk.Audit.Service.{World, Route, route, is_done, first_reason, or_empty}
use atamura_okk.Audit.Settled.{verdict_at}
use atamura_okk.Audit.Names.{IsFresh, by_reason-IsFresh}
use atamura_okk.Audit.Polling.{
  AuditBatch, is_awaited, drop_pending, settle, Judged, answered, lost, BatchEntry, Drained, count,
  drain_deal, drain_one, drain_entries, unreported, drain, Retrieved, unreachable, processing,
  ended, poll_row, poll_batches,
}
use atamura_okk.Audit.Awaited.{
  Keeps, is_awaited-by, Keeps-trans, drop_pending-Keeps, drop_pending-frees, settle-Keeps, IsAnswer,
  settle-frees,
}

counted :
    (i : ℕ) (acc : List AuditVerdict × Bool) (st : Drained)
    → ((count i acc st).verdicts ≡ acc.0) × ((count i acc st).seen ≡ i ∷ st.seen)
counted i (rows, true) st = (refl, refl)
counted i (rows, false) st = (refl, refl)

-- The deals that were seen do not wait.
abbrev IsFree : Drained → Type 0
IsFree st = (i : ℕ) → mem i st.seen ≡ true → is_awaited i st.verdicts ≡ false

-- What a result does to its deal.
drain_deal-frees :
    (i : ℕ) (j : Judged) (st : Drained)
    → IsAnswer j
    → Keeps st.verdicts (drain_deal i j st).verdicts
      × (is_awaited i (drain_deal i j st).verdicts ≡ false)
      × ((drain_deal i j st).seen ≡ i ∷ st.seen)
unfolding drain_deal
drain_deal-frees i lost st said =
    let own : mem i (i ∷ []) ≡ true = ground arith in
    (drop_pending-Keeps (i ∷ []) st.verdicts, drop_pending-frees (i ∷ []) st.verdicts i own, refl)
drain_deal-frees i (answered true answer) st said =
    let own : mem i (i ∷ []) ≡ true = ground arith in
    (drop_pending-Keeps (i ∷ []) st.verdicts, drop_pending-frees (i ∷ []) st.verdicts i own, refl)
drain_deal-frees i (answered false answer) st said =
    let (same, seen) = counted i (settle i answer st.verdicts) st in
    (
      rw same (settle-Keeps i answer st.verdicts),
      rw same (settle-frees i answer st.verdicts said),
      seen,
    )

drain_one-IsFree :
    (e : BatchEntry) (st : Drained)
    → IsAnswer e.judged
    → IsFree st
    → Keeps st.verdicts (drain_one e st).verdicts × IsFree (drain_one e st)
drain_one-IsFree e st said free = elim (Option-cases e.deal_id) [
  | inl unknown ↦ rw unknown ((λ i h. refl), free)
  | inr (j, known) ↦
      let (keeps, freed, seen) = drain_deal-frees j e.judged st said in
      rw known (
        keeps,
        λ i m.
            let there = rw seen at m in
            elim (Bool-cases (j == i)) [
              | inl same ↦ rw (sym ((==_iff j i).0 same)) freed
              | inr apart ↦
                  is_awaited-by i st.verdicts (drain_deal j e.judged st).verdicts
                    (keeps i (free i (rw apart at there))) (free i (rw apart at there))
            ],
      )
]

drain_entries-IsFree :
    (es : List BatchEntry) (st : Drained)
    → All (λ e. IsAnswer e.judged) es
    → IsFree st
    → Keeps st.verdicts (drain_entries es st).verdicts × IsFree (drain_entries es st)
unfolding drain_entries
drain_entries-IsFree [] st said free = ((λ i h. refl), free)
drain_entries-IsFree (e ∷ es) st said free =
    let (keeps, freed) = drain_one-IsFree e st said.0 free in
    let (later, all) = drain_entries-IsFree es (drain_one e st) said.1 freed in
    (
      Keeps-trans st.verdicts (drain_one e st).verdicts (drain_entries es (drain_one e st)).verdicts
          keeps later,
      all,
    )

mem-unreported :
    (seen ids : List ℕ) (i : ℕ)
    → mem i ids ≡ true
    → mem i seen ≡ false
    → mem i (unreported seen ids) ≡ true
mem-unreported seen [] i m h = cc
mem-unreported seen (j ∷ js) i m h = elim (Bool-cases (j == i)) [
  | inl same ↦ let here : mem j seen ≡ false = rw ((==_iff j i).0 same) h in rw here (rw same refl)
  | inr apart ↦
      let rest = mem-unreported seen js i (rw apart at m) h in
      elim (Bool-cases (mem j seen)) [ inl e ↦ rw e rest | inr e ↦ rw e (rw apart rest) ]
]

drain-frees :
    (ids : List ℕ) (es : List BatchEntry) (rows : List AuditVerdict)
    → All (λ e. IsAnswer e.judged) es
    → Keeps rows (drain ids es rows).verdicts
      × ((i : ℕ) → mem i ids ≡ true → is_awaited i (drain ids es rows).verdicts ≡ false)
unfolding drain
drain-frees ids es rows said =
    let start : Drained = record { verdicts = rows; settled = 0; failed = 0; seen = [] } in
    let (keeps, free) = drain_entries-IsFree es start said (λ i m. cc) in
    let st = drain_entries es start in
    let dropped = drop_pending-Keeps (unreported st.seen ids) st.verdicts in
    (
      Keeps-trans rows st.verdicts (drop_pending (unreported st.seen ids) st.verdicts) keeps
          dropped,
      λ i m. elim (Bool-cases (mem i st.seen)) [
        | inl there ↦
            is_awaited-by i st.verdicts (drop_pending (unreported st.seen ids) st.verdicts)
              (dropped i (free i there)) (free i there)
        | inr absent ↦
            drop_pending-frees (unreported st.seen ids) st.verdicts i
              (mem-unreported st.seen ids i m absent)
      ],
    )

-- The service's answers name verdicts.
abbrev pub IsAnswered : Retrieved → Type 0
IsAnswered (ended es) = All (λ e. IsAnswer e.judged) es
IsAnswered _ = Unit {0}

-- A poll of this batch ends it.
abbrev pub IsEnding : Bool → Retrieved → Type 0
IsEnding true (ended es) = Unit {0}
IsEnding _ _ = ⊥

abbrev Frees : AuditBatch → List AuditVerdict → Type 0
Frees b rows = (i : ℕ) → mem i b.deal_ids ≡ true → is_awaited i rows ≡ false

poll_row-Keeps :
    (is_open : Bool) (r : Retrieved) (b : AuditBatch) (rows : List AuditVerdict)
    → IsAnswered r
    → Keeps rows (poll_row is_open r b rows).1
poll_row-Keeps true (ended es) b rows said = (drain-frees b.deal_ids es rows said).0
poll_row-Keeps true unreachable b rows said = λ i h. refl
poll_row-Keeps true processing b rows said = λ i h. refl
poll_row-Keeps false r b rows said = λ i h. refl

poll_row-Frees :
    (is_open : Bool) (r : Retrieved) (b : AuditBatch) (rows : List AuditVerdict)
    → IsAnswered r
    → IsEnding is_open r
    → Frees b (poll_row is_open r b rows).1
poll_row-Frees true (ended es) b rows said ends = (drain-frees b.deal_ids es rows said).1
poll_row-Frees true unreachable b rows said ends = absurd ends
poll_row-Frees true processing b rows said ends = absurd ends
poll_row-Frees false r b rows said ends = absurd ends

module _ (retrieve : AuditBatch → Retrieved)
    (said : (b : AuditBatch) → IsAnswered (retrieve b)) where
  poll_batches-Keeps :
      (bs : List AuditBatch) (rows : List AuditVerdict)
      → Keeps rows (poll_batches retrieve bs rows).1
  unfolding poll_batches
  poll_batches-Keeps [] rows = λ i h. refl
  poll_batches-Keeps (b ∷ bs) rows =
      let rows' = (poll_row b.is_open (retrieve b) b rows).1 in
      Keeps-trans rows rows' (poll_batches retrieve bs rows').1
        (poll_row-Keeps b.is_open (retrieve b) b rows (said b)) (poll_batches-Keeps bs rows')

  poll_batches-Frees :
      (bs : List AuditBatch) (rows : List AuditVerdict)
      → All (λ b. IsEnding b.is_open (retrieve b) → Frees b (poll_batches retrieve bs rows).1) bs
  unfolding poll_batches
  poll_batches-Frees [] rows = tt
  poll_batches-Frees (b ∷ bs) rows =
      let rows' = (poll_row b.is_open (retrieve b) b rows).1 in
      let later = poll_batches-Keeps bs rows' in
      (
        λ ends i m.
            let freed = poll_row-Frees b.is_open (retrieve b) b rows (said b) ends i m in
            is_awaited-by i rows' (poll_batches retrieve bs rows').1 (later i freed) freed,
        poll_batches-Frees bs rows',
      )

  -- A deal that does not wait is not in flight.
  route-moves :
      (s : AuditSettings) (w : World) (rows : List AuditVerdict) (d : Deal)
      → is_awaited d.id rows ≡ false
      → route s w rows d ≢ Route.in_flight
  unfolding route
  route-moves s w rows d e h = elim (Bool-cases (is_done rows d)) [
    | inl done ↦ cc (rw (e, done) at h)
    | inr open_end ↦
        subst IsFresh (rw (e, open_end) at h)
          (by_reason-IsFresh s w d (dup_kind s (or_empty (first_reason d))))
  ]

  -- A poll settles or frees every deal of the batches that have ended: where the service's answers
  -- do not say `pending`, none of them waits for a verdict afterwards, so the next pass of the audit
  -- never finds one in flight; and a verdict that was not waiting, such as one that a realtime pass
  -- has given meanwhile, stays as it is.
  pub poll_batches-frees :
      (bs : List AuditBatch) (rows : List AuditVerdict)
      → let rows' = (poll_batches retrieve bs rows).1 in
        All
          (λ b.
            IsEnding b.is_open (retrieve b)
            → (d : Deal) → mem d.id b.deal_ids ≡ true
            → (is_awaited d.id rows' ≡ false)
              × ((s : AuditSettings) (w : World) → route s w rows' d ≢ Route.in_flight))
          bs
        × ((i : ℕ) → is_awaited i rows ≡ false → verdict_at i rows' ≡ verdict_at i rows)
  poll_batches-frees bs rows =
      let rows' = (poll_batches retrieve bs rows).1 in
      (
        All-imp (λ b. IsEnding b.is_open (retrieve b) → Frees b rows')
            (λ b.
              IsEnding b.is_open (retrieve b)
              → (d : Deal) → mem d.id b.deal_ids ≡ true
              → (is_awaited d.id rows' ≡ false)
                × ((s : AuditSettings) (w : World) → route s w rows' d ≢ Route.in_flight))
            (λ b frees ends d m.
              (frees ends d.id m, λ s w. route-moves s w rows' d (frees ends d.id m)))
            bs (poll_batches-Frees bs rows),
        poll_batches-Keeps bs rows,
      )
