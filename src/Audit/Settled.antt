-- ===== src/Audit/Settled.antt =====
-- What a pass of the audit does to the verdict of each deal (AtamuraOKK/audit/service.py).
use atamura_okk.Base.{
  ℕ, ◌≡◌, refl, sym, subst, ◌∙◌, ap, inl, inr, String, Bool, true, false, Option, none, some, List,
  [], ◌∷◌, arith, ◌==◌, map, mem, All, Bool-cases, if◌then◌else◌,
}
use atamura_okk.Base.Distinct.{IsDistinct}
use atamura_okk.Audit.Deals.{AuditSettings, AuditVerdict, get, upsert}
use atamura_okk.Audit.Service.{
  Route, World, Entry, write, submit_row, submitted, submit_entries, settle_row, settled,
  settle_entries, persist,
}

-- The stored verdict of a deal.
abbrev pub name_of : Option AuditVerdict → Option String
name_of none = none
name_of (some v) = some v.verdict

abbrev pub verdict_at : ℕ → List AuditVerdict → Option String
verdict_at i rows = name_of (get i rows)

verdict_at-upsert :
    (i : ℕ) (new : AuditVerdict) (rows : List AuditVerdict)
    → verdict_at i (upsert new rows)
      ≡ (if new.deal_id == i then some new.verdict else verdict_at i rows)
unfolding get upsert
verdict_at-upsert i new [] = elim (Bool-cases (new.deal_id == i)) [
  | inl e ↦ rw e refl
  | inr e ↦ rw e refl
]
verdict_at-upsert i new (v ∷ vs) = elim (Bool-cases (v.deal_id == new.deal_id)) [
  | inl e ↦ rw e (elim (Bool-cases (new.deal_id == i)) [
    | inl k ↦ rw k refl
    | inr k ↦ let other : (v.deal_id == i) ≡ false = ground arith in rw (k, other) refl
  ])
  | inr e ↦ rw e (elim (Bool-cases (v.deal_id == i)) [
    | inl k ↦ let other : (new.deal_id == i) ≡ false = ground arith in rw (k, other) refl
    | inr k ↦ rw k (verdict_at-upsert i new vs)
  ])
]

-- The verdict of an entry's deal behind a step that may write it.
abbrev pub after : Option AuditVerdict → Option String → Option String
after none old = old
after (some row) old = some row.verdict

-- A step writes the row of its own deal only.
abbrev pub IsOwn : ℕ → Option AuditVerdict → Type 0
IsOwn i none = Unit {0}
IsOwn i (some row) = row.deal_id ≡ i

write-own :
    (i : ℕ) (o : Option AuditVerdict) (rows : List AuditVerdict)
    → IsOwn i o
    → verdict_at i (write o rows) ≡ after o (verdict_at i rows)
write-own i none rows own = refl
write-own i (some row) rows own =
    let here : (row.deal_id == i) ≡ true = ground arith in
    verdict_at-upsert i row rows ∙ rw here refl

write-other :
    (i j : ℕ) (o : Option AuditVerdict) (rows : List AuditVerdict)
    → IsOwn i o
    → (i == j) ≡ false
    → verdict_at j (write o rows) ≡ verdict_at j rows
write-other i j none rows own h = refl
write-other i j (some row) rows own h =
    let there : (row.deal_id == j) ≡ false = ground arith in
    verdict_at-upsert j row rows ∙ rw there refl

abbrev pub ids : List Entry → List ℕ
ids es = map (λ e. e.deal.id) es

-- A loop over the entries that writes for each of them, and what it leaves.
abbrev Loop : Type 0
Loop = List Entry → List AuditVerdict → List Entry × List AuditVerdict

module _ (row_of : Entry → Option AuditVerdict) (next : Entry → Entry)
    (own : (e : Entry) → IsOwn e.deal.id (row_of e)) (loop : Loop)
    (ends : (rows : List AuditVerdict) → loop [] rows ≡ ([], rows))
    (goes : (e : Entry) (es : List Entry) (rows : List AuditVerdict)
      → loop (e ∷ es) rows
        ≡ (next e ∷ (loop es (write (row_of e) rows)).0, (loop es (write (row_of e) rows)).1)) where
  loop-entries : (es : List Entry) (rows : List AuditVerdict) → (loop es rows).0 ≡ map next es
  loop-entries [] rows = rw (ends rows) refl
  loop-entries (e ∷ es) rows =
      rw (goes e es rows) (ap (◌∷◌ (next e)) (loop-entries es (write (row_of e) rows)))

  loop-other :
      (i : ℕ) (es : List Entry) (rows : List AuditVerdict)
      → mem i (ids es) ≡ false
      → verdict_at i (loop es rows).1 ≡ verdict_at i rows
  loop-other i [] rows h = rw (ends rows) refl
  loop-other i (e ∷ es) rows h = rw (goes e es rows) (
      loop-other i es (write (row_of e) rows) (ground arith)
      ∙ write-other e.deal.id i (row_of e) rows (own e) (ground arith))

  -- What holds after the first entry's write holds with the rows before it.
  before_write :
      (e : Entry) (rows final : List AuditVerdict) (es : List Entry)
      → mem e.deal.id (ids es) ≡ false
      → All
          (λ d.
            verdict_at d.deal.id final
            ≡ after (row_of d) (verdict_at d.deal.id (write (row_of e) rows)))
          es
      → All (λ d. verdict_at d.deal.id final ≡ after (row_of d) (verdict_at d.deal.id rows)) es
  before_write e rows final [] fresh h = tt
  before_write e rows final (d ∷ ds) fresh h = (
    h.0
        ∙ ap (after (row_of d))
            (write-other e.deal.id d.deal.id (row_of e) rows (own e) (ground arith)),
    before_write e rows final ds (ground arith) h.1,
  )

  loop-own :
      (es : List Entry) (rows : List AuditVerdict)
      → IsDistinct (ids es)
      → All
          (λ e.
            verdict_at e.deal.id (loop es rows).1 ≡ after (row_of e) (verdict_at e.deal.id rows))
          es
  loop-own [] rows h = tt
  loop-own (e ∷ es) rows h =
      let rows' = write (row_of e) rows in
      subst
        (λ (x : List Entry × List AuditVerdict).
          All (λ d. verdict_at d.deal.id x.1 ≡ after (row_of d) (verdict_at d.deal.id rows))
            (e ∷ es))
        (sym (goes e es rows))
        (
          loop-other e.deal.id es rows' h.0 ∙ write-own e.deal.id (row_of e) rows (own e),
          before_write e rows (loop es rows').1 es h.0 (loop-own es rows' h.1),
        )

module _ (s : AuditSettings) (w : World) where
  submit_row-IsOwn : (e : Entry) → IsOwn e.deal.id (submit_row w e)
  unfolding submit_row
  submit_row-IsOwn e = by_route e.route
    where
      by_route : (r : Route) → IsOwn e.deal.id (submit_row w (record e { route = r }))
      by_route Route.to_judge = elim (Bool-cases (w.accepted e.deal.id)) [
        | inl k ↦ rw k refl
        | inr k ↦ rw k tt
      ]
      by_route Route.in_flight = tt
      by_route Route.already_done = tt
      by_route Route.no_transcript = tt
      by_route Route.judge_off = tt
      by_route Route.never_reached = tt
      by_route (Route.duplicate k) = tt

  settle_row-IsOwn : (e : Entry) → IsOwn e.deal.id (settle_row s w e)
  unfolding settle_row
  settle_row-IsOwn e = by_done e.done
    where
      by_done : (o : Option Bool) → IsOwn e.deal.id (settle_row s w (record e { done = o }))
      by_done none = refl
      by_done (some b) = tt

  submitted-deal : (e : Entry) → (submitted e).deal ≡ e.deal
  unfolding submitted
  submitted-deal e = by_route e.route
    where
      by_route : (r : Route) → (submitted (record e { route = r })).deal ≡ e.deal
      by_route Route.to_judge = refl
      by_route Route.in_flight = refl
      by_route Route.already_done = refl
      by_route Route.no_transcript = refl
      by_route Route.judge_off = refl
      by_route Route.never_reached = refl
      by_route (Route.duplicate k) = refl

  ids-submitted : (es : List Entry) → ids (map submitted es) ≡ ids es
  ids-submitted [] = refl
  ids-submitted (e ∷ es) = rw (submitted-deal e, ids-submitted es) refl

  submit_entries-entries :
      (es : List Entry) (rows : List AuditVerdict) → (submit_entries w es rows).0 ≡ map submitted es
  unfolding submit_entries
  submit_entries-entries =
      loop-entries (submit_row w) submitted submit_row-IsOwn (submit_entries w) (λ rows. refl)
        (λ e es rows. refl)

  settle_entries-entries :
      (es : List Entry) (rows : List AuditVerdict)
      → (settle_entries s w es rows).0 ≡ map (settled s w) es
  unfolding settle_entries
  settle_entries-entries =
      loop-entries (settle_row s w) (settled s w) settle_row-IsOwn (settle_entries s w)
        (λ rows. refl) (λ e es rows. refl)

  submit_entries-own :
      (es : List Entry) (rows : List AuditVerdict)
      → IsDistinct (ids es)
      → All
          (λ e.
            verdict_at e.deal.id (submit_entries w es rows).1
            ≡ after (submit_row w e) (verdict_at e.deal.id rows))
          es
  unfolding submit_entries
  submit_entries-own =
      loop-own (submit_row w) submitted submit_row-IsOwn (submit_entries w) (λ rows. refl)
        (λ e es rows. refl)

  settle_entries-own :
      (es : List Entry) (rows : List AuditVerdict)
      → IsDistinct (ids es)
      → All
          (λ e.
            verdict_at e.deal.id (settle_entries s w es rows).1
            ≡ after (settle_row s w e) (verdict_at e.deal.id rows))
          es
  unfolding settle_entries
  settle_entries-own =
      loop-own (settle_row s w) (settled s w) settle_row-IsOwn (settle_entries s w) (λ rows. refl)
        (λ e es rows. refl)

  -- What the loops make of an entry, and what they write for it.
  abbrev pub finished : Bool → Entry → Entry
  finished true e = settled s w (submitted e)
  finished false e = settled s w e

  abbrev pub outcome : Bool → Entry → Option String → Option String
  outcome true e old = after (settle_row s w (submitted e)) (after (submit_row w e) old)
  outcome false e old = after (settle_row s w e) old

  two_maps : (es : List Entry) → map (settled s w) (map submitted es) ≡ map (finished true) es
  two_maps [] = refl
  two_maps (e ∷ es) = ap (◌∷◌ (finished true e)) (two_maps es)

  joined :
      (rows rows1 final : List AuditVerdict) (es : List Entry)
      → All
          (λ e. verdict_at e.deal.id final ≡ after (settle_row s w e) (verdict_at e.deal.id rows1))
          (map submitted es)
      → All
          (λ e. verdict_at e.deal.id rows1 ≡ after (submit_row w e) (verdict_at e.deal.id rows))
          es
      → All (λ e. verdict_at e.deal.id final ≡ outcome true e (verdict_at e.deal.id rows)) es
  unfolding submitted
  joined rows rows1 final [] h k = tt
  joined rows rows1 final (e ∷ es) h k = (
    (rw (submitted-deal e) at h.0) ∙ ap (after (settle_row s w (submitted e))) k.0,
    joined rows rows1 final es h.1 k.1,
  )

  pub persist-entries :
      (batched : Bool) (es : List Entry) (rows : List AuditVerdict)
      → (persist s w batched es rows).0 ≡ map (finished batched) es
  unfolding persist
  persist-entries true es rows =
      let (es1, rows1) = submit_entries w es rows in
      settle_entries-entries es1 rows1 ∙ rw (submit_entries-entries es rows) (two_maps es)
  persist-entries false es rows = settle_entries-entries es rows

  pub persist-verdicts :
      (batched : Bool) (es : List Entry) (rows : List AuditVerdict)
      → IsDistinct (ids es)
      → All
          (λ e.
            verdict_at e.deal.id (persist s w batched es rows).1
            ≡ outcome batched e (verdict_at e.deal.id rows))
          es
  unfolding persist
  persist-verdicts true es rows h =
      let (es1, rows1) = submit_entries w es rows in
      let same = submit_entries-entries es rows in
      joined rows rows1 (settle_entries s w es1 rows1).1 es
        (subst
          (λ ds.
            All
              (λ e.
                verdict_at e.deal.id (settle_entries s w es1 rows1).1
                ≡ after (settle_row s w e) (verdict_at e.deal.id rows1))
              ds)
          same
          (settle_entries-own es1 rows1
            (subst (λ ds. IsDistinct (ids ds)) (sym same) (rw (ids-submitted es) h))))
        (submit_entries-own es rows h)
  persist-verdicts false es rows h = settle_entries-own es rows h
