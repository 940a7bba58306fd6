-- ===== src/Audit/Cursor.antt =====
-- AtamuraOKK/audit/service.py, `run_audit`: the cursor passes no deal that is not settled.
use atamura_okk.Base.{
  ℕ, ◌≤◌, ◌<◌, ◌≡◌, refl, sym, subst, ap, ◌∙◌, inl, inr, ◌⊎◌, String, Bool, true, false, Option,
  none, some, List, [], ◌∷◌, arith, ◌==◌, map, All, Bool-cases,
}
use atamura_okk.Base.Distinct.{IsDistinct}
use atamura_okk.Audit.Deals.{Deal, AuditSettings, AuditVerdict}
use atamura_okk.Audit.Service.{
  Route, World, Entry, route, known, to_entry, resolve_targets, verdict_of, submit_row, submitted,
  settle_row, settle_entries, settled, persist, is_true, or_else, advance, Audit, run_audit,
  phones_of,
}
use atamura_okk.Audit.Settled.{
  verdict_at, ids, finished, outcome, persist-entries, persist-verdicts,
}
use atamura_okk.Audit.Names.{
  IsNamed, IsFinal, named-IsFinal, check_one-IsNamed, dialled-IsNamed, route-IsFinal, final-route,
}

-- The order of close dates; a deal without one stands anywhere.
abbrev pub InOrder : Option ℕ → Option ℕ → Type 0
InOrder (some a) (some b) = a ≤ b
InOrder none _ = Unit {0}
InOrder (some a) none = Unit {0}

-- Bitrix lists by close date, ascending.
abbrev pub IsListed : List Deal → Type 0
IsListed [] = Unit {0}
IsListed (d ∷ ds) = All (λ e. InOrder d.closedate e.closedate) ds × IsListed ds

-- A deal that the cursor has passed: the next listing starts behind it.
abbrev pub IsPassed : Option ℕ → Option ℕ → Type 0
IsPassed (some cursor) (some t) = t < cursor
IsPassed none _ = ⊥
IsPassed (some cursor) none = ⊥

not-IsPassed : (c t : Option ℕ) → InOrder c t → ¬ IsPassed c t
not-IsPassed none t h k = k
not-IsPassed (some c) none h k = k
not-IsPassed (some c) (some t) h k = omega arith

module _ (s : AuditSettings) (w : World) where
  abbrev entry : Deal → Route → Entry
  entry d r = record { deal = d; route = r; done = known r }

  -- An entry that is done at the end has a final verdict, or no transcript to judge.
  done_lem :
      ((d : Deal) → IsNamed (w.judge d))
      → (batched : Bool) (d : Deal) (old : Option String) (r : Route)
      → (r ≡ Route.already_done → IsFinal old)
      → is_true (finished s w batched (entry d r)).done ≡ true
      → IsFinal (outcome s w batched (entry d r) old) ⊎ (r ≡ Route.no_transcript)
  unfolding submitted settled submit_row settle_row verdict_of
  done_lem named b d old Route.no_transcript h k = inr refl
  done_lem named true d old Route.in_flight h k = absurd (cc)
  done_lem named false d old Route.in_flight h k = absurd (cc)
  done_lem named true d old Route.judge_off h k = absurd (cc)
  done_lem named false d old Route.judge_off h k = absurd (cc)
  done_lem named true d old Route.already_done h k = inl (h refl)
  done_lem named false d old Route.already_done h k = inl (h refl)
  done_lem named true d old Route.to_judge h k = absurd (cc)
  done_lem named false d old Route.to_judge h k = inl (named-IsFinal (w.judge d) (named d) k)
  done_lem named true d old Route.never_reached h k = inl (
      named-IsFinal (verdict_of s w d Route.never_reached)
        (dialled-IsNamed s d w.statistics (phones_of w d)) k)
  done_lem named false d old Route.never_reached h k = inl (
      named-IsFinal (verdict_of s w d Route.never_reached)
        (dialled-IsNamed s d w.statistics (phones_of w d)) k)
  done_lem named true d old (Route.duplicate kind) h k = inl (
      named-IsFinal (verdict_of s w d (Route.duplicate kind))
        (check_one-IsNamed s d w.crm kind (phones_of w d)) k)
  done_lem named false d old (Route.duplicate kind) h k = inl (
      named-IsFinal (verdict_of s w d (Route.duplicate kind))
        (check_one-IsNamed s d w.crm kind (phones_of w d)) k)

  kept_lem :
      (batched : Bool) (d : Deal) (old : Option String)
      → outcome s w batched (entry d Route.already_done) old ≡ old
  unfolding submitted settled submit_row settle_row
  kept_lem true d old = refl
  kept_lem false d old = refl

  finished-deal :
      (batched : Bool) (d : Deal) (r : Route) → (finished s w batched (entry d r)).deal ≡ d
  unfolding submitted settled
  finished-deal true d Route.in_flight = refl
  finished-deal true d Route.already_done = refl
  finished-deal true d Route.no_transcript = refl
  finished-deal true d Route.judge_off = refl
  finished-deal true d Route.never_reached = refl
  finished-deal true d Route.to_judge = refl
  finished-deal true d (Route.duplicate k) = refl
  finished-deal false d Route.in_flight = refl
  finished-deal false d Route.already_done = refl
  finished-deal false d Route.no_transcript = refl
  finished-deal false d Route.judge_off = refl
  finished-deal false d Route.never_reached = refl
  finished-deal false d Route.to_judge = refl
  finished-deal false d (Route.duplicate k) = refl

  -- The end of the pass, for deals that the cursor has not reached.
  module _ (rows : List AuditVerdict) (batched : Bool) where
    abbrev ended : Deal → Entry
    ended d = finished s w batched (to_entry s w rows d)

    abbrev ends : List Deal → List Entry
    ends ds = map ended ds

    not_reached :
        (c : Option ℕ) (ds : List Deal)
        → All (λ d. InOrder c d.closedate) ds
        → All (λ d. IsPassed c d.closedate → is_true (ended d).done ≡ true) ds
    not_reached c [] h = tt
    not_reached c (d ∷ ds) h =
        ((λ k. absurd (not-IsPassed c d.closedate h.0 k)), not_reached c ds h.1)

    deal-ended : (d : Deal) → (ended d).deal ≡ d
    deal-ended d = finished-deal batched d (route s w rows d)

    from_next :
        (c : Option ℕ) (d : Deal) (ds : List Deal)
        → All (λ e. InOrder c e.closedate) ds
        → All (λ e. InOrder d.closedate e.closedate) ds
        → All (λ e. InOrder (or_else d.closedate c) e.closedate) ds
    from_next c d ds h k = by_date d.closedate k
      where
        by_date :
            (t : Option ℕ)
            → All (λ e. InOrder t e.closedate) ds
            → All (λ e. InOrder (or_else t c) e.closedate) ds
        by_date none k = h
        by_date (some t) k = k

    -- What the cursor passes is done.
    passed_lem :
        (c : Option ℕ) (ds : List Deal)
        → IsListed ds
        → All (λ d. InOrder c d.closedate) ds
        → All (λ d. IsPassed (advance c (ends ds)) d.closedate → is_true (ended d).done ≡ true) ds
    unfolding advance
    passed_lem c [] listed from = tt
    passed_lem c (d ∷ ds) listed from = elim (Bool-cases (is_true (ended d).done)) [
      | inl e ↦
          let step : advance c (ends (d ∷ ds)) ≡ advance (or_else d.closedate c) (ends ds) =
            rw e (ap (λ (x : Deal). advance (or_else x.closedate c) (ends ds)) (deal-ended d)) in
          subst (λ x. All (λ a. IsPassed x a.closedate → is_true (ended a).done ≡ true) (d ∷ ds))
            (sym step)
            (
              (λ _. e),
              passed_lem (or_else d.closedate c) ds listed.1 (from_next c d ds from.1 listed.0),
            )
      | inr e ↦
          let step : advance c (ends (d ∷ ds)) ≡ c = rw e refl in
          subst (λ x. All (λ a. IsPassed x a.closedate → is_true (ended a).done ≡ true) (d ∷ ds))
            (sym step) (not_reached c (d ∷ ds) from)
    ]

    -- What a pass has to show for a deal.
    abbrev pub IsHandled : List AuditVerdict → Option ℕ → Deal → Type 0
    IsHandled final cursor d =
        (IsPassed cursor d.closedate
          → IsFinal (verdict_at d.id final) ⊎ (route s w rows d ≡ Route.no_transcript))
        × (IsFinal (verdict_at d.id rows) → verdict_at d.id final ≡ verdict_at d.id rows)

    handled :
        ((d : Deal) → IsNamed (w.judge d))
        → (final : List AuditVerdict) (cursor : Option ℕ) (ds : List Deal)
        → All (λ d. IsPassed cursor d.closedate → is_true (ended d).done ≡ true) ds
        → All
            (λ e. verdict_at e.deal.id final ≡ outcome s w batched e (verdict_at e.deal.id rows))
            (resolve_targets s w rows ds)
        → All (IsHandled final cursor) ds
    handled named final cursor [] done verdicts = tt
    handled named final cursor (d ∷ ds) done verdicts =
        let old = verdict_at d.id rows in
        (
          (
            (λ passed. rw (verdicts.0) (
                done_lem named batched d old (route s w rows d) (route-IsFinal s w rows d)
                  (done.0 passed))),
            (λ settled. verdicts.0 ∙ rw (final-route s w rows d settled) (kept_lem batched d old)),
          ),
          handled named final cursor ds done.1 verdicts.1,
        )

  entries-ids :
      (rows : List AuditVerdict) (ds : List Deal)
      → ids (resolve_targets s w rows ds) ≡ map (λ d. d.id) ds
  entries-ids rows [] = refl
  entries-ids rows (d ∷ ds) = ap (◌∷◌ d.id) (entries-ids rows ds)

  entries-ends :
      (rows : List AuditVerdict) (batched : Bool) (ds : List Deal)
      → map (finished s w batched) (resolve_targets s w rows ds) ≡ ends rows batched ds
  entries-ends rows batched [] = refl
  entries-ends rows batched (d ∷ ds) =
      ap (◌∷◌ (ended rows batched d)) (entries-ends rows batched ds)

  -- A pass of the audit loses no deal. If Bitrix lists the deals by close date, from the cursor on
  -- and each once, and the judge's answers name a verdict, then every listed deal that the cursor
  -- passes has a verdict that is neither an error nor pending, or it had no transcript to judge. A
  -- verdict that a listed deal had for good stays as it is.
  pub run_audit-loses_none :
      ((d : Deal) → IsNamed (w.judge d))
      → (deals : List Deal) (a : Audit) → IsDistinct (map (λ d. d.id) deals)
      → IsListed deals
      → All (λ d. InOrder a.cursor d.closedate) deals
      → let a' = run_audit s w deals a in
        All
          (λ d.
            (IsPassed a'.cursor d.closedate
              → IsFinal (verdict_at d.id a'.verdicts)
                ⊎ (route s w a.verdicts d ≡ Route.no_transcript))
            × (IsFinal (verdict_at d.id a.verdicts)
                → verdict_at d.id a'.verdicts ≡ verdict_at d.id a.verdicts))
          deals
  unfolding run_audit
  run_audit-loses_none named deals a distinct listed from =
      let es = resolve_targets s w a.verdicts deals in
      let batched = s.judge_batch_enabled in
      let same =
        persist-entries s w batched es a.verdicts ∙ entries-ends a.verdicts batched deals in
      let verdicts =
        persist-verdicts s w batched es a.verdicts (rw (entries-ids a.verdicts deals) distinct) in
      subst
        (λ xs.
          All
            (IsHandled a.verdicts batched (persist s w batched es a.verdicts).1
              (advance a.cursor xs))
            deals)
        (sym same)
        (handled a.verdicts batched named (persist s w batched es a.verdicts).1
          (advance a.cursor (ends a.verdicts batched deals)) deals
          (passed_lem a.verdicts batched a.cursor deals listed from) verdicts)

  unnamed-persist :
      (rows : List AuditVerdict) (d e : Deal)
      → (e.id == d.id) ≡ false
      → w.judge d ≡ none
      → let es = entry d Route.to_judge ∷ entry e Route.no_transcript ∷ [] in
        (verdict_at d.id (persist s w false es rows).1 ≡ some "error")
        × ((c : Option ℕ)
            → advance c (persist s w false es rows).0 ≡ or_else e.closedate (or_else d.closedate c))
  unfolding persist settle_entries settle_row settled verdict_of advance
  unnamed-persist rows d e apart silent =
      let es = entry d Route.to_judge ∷ entry e Route.no_transcript ∷ [] in
      let verdicts = persist-verdicts s w false es rows (ground arith, (refl, tt)) in
      (verdicts.0 ∙ rw silent refl, λ c. rw silent refl)

  -- On the realtime route, an answer of the judge that names no verdict is stored as an error, yet
  -- its deal counts as done: with a later deal that has no transcript, the cursor goes on to the
  -- close date of that one, and the next listing starts behind the deal that was not judged.
  pub run_audit-unnamed :
      (d e : Deal) (t : ℕ) (a : Audit)
      → s.judge_batch_enabled ≡ false
      → (e.id == d.id) ≡ false
      → w.judge d ≡ none
      → route s w a.verdicts d ≡ Route.to_judge
      → route s w a.verdicts e ≡ Route.no_transcript
      → e.closedate ≡ some t
      → let a' = run_audit s w (d ∷ e ∷ []) a in
        (verdict_at d.id a'.verdicts ≡ some "error") × (a'.cursor ≡ some t)
  unfolding run_audit
  run_audit-unnamed d e t a realtime apart silent sent unheard dated =
      let (error, cursor) = unnamed-persist a.verdicts d e apart silent in
      subst
        (λ b.
          let out = persist s w b (resolve_targets s w a.verdicts (d ∷ e ∷ [])) a.verdicts in
          (verdict_at d.id out.1 ≡ some "error") × (advance a.cursor out.0 ≡ some t))
        (sym realtime) (rw (sent, unheard) (error, cursor a.cursor ∙ rw dated refl))
