-- ===== src/Audit/Service.antt =====
-- AtamuraOKK/audit/service.py: one pass of the audit over the deals that were closed since the
-- cursor. Bitrix, the judge, the batch service and the transcripts that are stored are parameters.
-- The tally of the verdicts and an exception of a look-up that ends the whole pass are left out.
use atamura_okk.Base.{
  ℕ, String, Bool, true, false, Option, none, some, List, [], ◌∷◌, ◌==◌, str_eq, not, map,
  if◌then◌else◌,
}
use atamura_okk.Audit.Deals.{
  Deal, AuditSettings, AuditVerdict, get, upsert, Kind, reason_ids, dup_kind, is_never_reached,
}
use atamura_okk.Audit.Duplicates.{Crm}
use atamura_okk.Audit.Duplicates
use atamura_okk.Audit.Telephony.{Statistics}
use atamura_okk.Audit.Telephony

-- Where `_resolve_targets` sends a deal.
pub data Route : Type 0 where
  in_flight already_done no_transcript judge_off never_reached to_judge : Route
  duplicate : Kind → Route

-- What the world says. `judge` is the verdict's name in the answer, if the answer has one.
pub record World : Type 0 where
  pub transcripts : ℕ → List ℕ
  pub phones : ℕ → List String
  pub managers : ℕ → Option ℕ
  pub crm : Crm
  pub statistics : Statistics
  pub judge : Deal → Option String
  pub accepted : ℕ → Bool

abbrev pub has_verdict : (String → Bool) → Option AuditVerdict → Bool
has_verdict p none = false
has_verdict p (some v) = p v.verdict

-- The two queries of `run_audit` over the stored verdicts.
abbrev pub is_in_flight : List AuditVerdict → Deal → Bool
is_in_flight rows d = has_verdict (λ v. str_eq v "pending") (get d.id rows)

abbrev pub is_done : List AuditVerdict → Deal → Bool
is_done rows d = has_verdict (λ v. not (str_eq v "error")) (get d.id rows)

-- The calls of the client that have a transcript.
abbrev pub call_ids : World → Deal → List ℕ
call_ids w d = if d.contact == 0 then [] else w.transcripts d.contact

abbrev pub first_reason : Deal → Option String
first_reason d = elim (reason_ids d.reasons) [ [] ↦ none | r ∷ rs ↦ some r ]

abbrev pub or_empty : Option String → String
or_empty none = ""
or_empty (some r) = r

abbrev pub is_member : List String → Option String → Bool
is_member ids none = false
is_member ids (some r) = is_never_reached ids r

abbrev pub by_transcript : AuditSettings → List ℕ → Route
by_transcript s [] = no_transcript
by_transcript s (i ∷ is) = if s.llm_judge_enabled then to_judge else judge_off

-- The routes of a deal without a verdict, by the kind of duplicate that its reason claims.
unfoldable pub by_reason : AuditSettings → World → Deal → Option Kind → Route
unfolding is_never_reached
by_reason s w d (some kind) = duplicate kind
by_reason s w d none =
    if is_member s.never_reached_reason_ids (first_reason d)
    then never_reached
    else by_transcript s (call_ids w d)

-- `_resolve_targets`, for one deal.
unfoldable pub route : AuditSettings → World → List AuditVerdict → Deal → Route
unfolding reason_ids dup_kind by_reason
route s w rows d =
    if is_in_flight rows d
    then in_flight
    else if is_done rows d
    then already_done
    else by_reason s w d (dup_kind s (or_empty (first_reason d)))

-- An entry of the list that the cursor walks; `done` is not known while a verdict is awaited.
pub record Entry : Type 0 where
  pub deal : Deal
  pub route : Route
  pub done : Option Bool

abbrev pub known : Route → Option Bool
known in_flight = some false
known already_done = some true
known no_transcript = some true
known judge_off = some false
known _ = none

abbrev pub to_entry : AuditSettings → World → List AuditVerdict → Deal → Entry
to_entry s w rows d = let r = route s w rows d in record { deal = d; route = r; done = known r }

-- `_resolve_targets`
abbrev pub resolve_targets : AuditSettings → World → List AuditVerdict → List Deal → List Entry
resolve_targets s w rows deals = map (to_entry s w rows) deals

abbrev pub to_row : World → Deal → String → AuditVerdict
to_row w d verdict = record {
  deal_id = d.id;
  deal_title = d.title;
  manager_id = elim d.assigned_by_id [ none ↦ none | some u ↦ w.managers u ];
  assigned_by_id = d.assigned_by_id;
  client_key = d.contact;
  reason_id = first_reason d;
  verdict = verdict;
  call_ids = call_ids w d;
  closed_at = d.closedate;
  notified_at = none;
}

-- `str(verdict.get("verdict") or "error")`, which is stored.
abbrev pub stored_name : Option String → String
stored_name none = "error"
stored_name (some v) = if str_eq v "" then "error" else v

-- `str(verdict.get("verdict"))`, which decides whether the deal is done.
abbrev pub told_name : Option String → String
told_name none = "None"
told_name (some v) = v

abbrev pub phones_of : World → Deal → List String
phones_of w d = if d.contact == 0 then [] else w.phones d.contact

-- The verdict of the loop of `_settle_and_persist`.
unfoldable pub verdict_of : AuditSettings → World → Deal → Route → Option String
verdict_of s w d (duplicate kind) =
    some (Duplicates.check_one s w.crm d kind (phones_of w d)).verdict
verdict_of s w d never_reached = some (Telephony.check_one s w.statistics d (phones_of w d)).verdict
verdict_of s w d _ = w.judge d

-- What a step writes, if it writes.
abbrev pub write : Option AuditVerdict → List AuditVerdict → List AuditVerdict
write none rows = rows
write (some row) rows = upsert row rows

-- `_submit_judge_batch`, for one entry: a deal that went out gets a pending row, and no deal for
-- the judge is done.
unfoldable pub submit_row : World → Entry → Option AuditVerdict
submit_row w e = elim e.route [
  | to_judge ↦ if w.accepted e.deal.id then some (to_row w e.deal "pending") else none
  | _ ↦ none
]

unfoldable pub submitted : Entry → Entry
submitted e = elim e.route [ to_judge ↦ record e { done = some false } | _ ↦ e ]

unfoldable pub submit_entries :
    World → List Entry → List AuditVerdict → List Entry × List AuditVerdict
unfolding submit_row submitted
submit_entries w [] rows = ([], rows)
submit_entries w (e ∷ es) rows =
    let (es', rows') = submit_entries w es (write (submit_row w e) rows) in
    (submitted e ∷ es', rows')

-- The loop of `_settle_and_persist` over the entries, for one of them.
unfoldable pub settle_row : AuditSettings → World → Entry → Option AuditVerdict
unfolding verdict_of
settle_row s w e = elim e.done [
  | some _ ↦ none
  | none ↦ some (to_row w e.deal (stored_name (verdict_of s w e.deal e.route)))
]

unfoldable pub settled : AuditSettings → World → Entry → Entry
unfolding verdict_of
settled s w e = elim e.done [
  | some _ ↦ e
  | none ↦ record e {
    done = some (not (str_eq (told_name (verdict_of s w e.deal e.route)) "error"));
  }
]

unfoldable pub settle_entries :
    AuditSettings → World → List Entry → List AuditVerdict → List Entry × List AuditVerdict
unfolding settle_row settled
settle_entries s w [] rows = ([], rows)
settle_entries s w (e ∷ es) rows =
    let (es', rows') = settle_entries s w es (write (settle_row s w e) rows) in
    (settled s w e ∷ es', rows')

-- `_settle_and_persist`; the flag says that the judge's deals are batched.
unfoldable pub persist :
    AuditSettings → World → Bool → List Entry → List AuditVerdict → List Entry × List AuditVerdict
unfolding submit_entries settle_entries
persist s w true es rows =
    let (es', rows') = submit_entries w es rows in settle_entries s w es' rows'
persist s w false es rows = settle_entries s w es rows

abbrev pub settle_and_persist :
    AuditSettings → World → List Entry → List AuditVerdict → List Entry × List AuditVerdict
settle_and_persist s w es rows = persist s w s.judge_batch_enabled es rows

abbrev pub or_else : Option ℕ → Option ℕ → Option ℕ
or_else none old = old
or_else (some t) old = some t

abbrev pub is_true : Option Bool → Bool
is_true none = false
is_true (some b) = b

-- The loop at the end of `run_audit`: over the leading run of deals that are done.
unfoldable pub advance : Option ℕ → List Entry → Option ℕ
advance cursor [] = cursor
advance cursor (e ∷ es) =
    let further = advance (or_else e.deal.closedate cursor) es in
    if is_true e.done then further else cursor

pub record Audit : Type 0 where
  pub cursor : Option ℕ
  pub verdicts : List AuditVerdict

-- `run_audit`, over the deals that Bitrix lists.
unfoldable pub run_audit : AuditSettings → World → List Deal → Audit → Audit
unfolding persist advance
run_audit s w deals a =
    let (es, rows) = settle_and_persist s w (resolve_targets s w a.verdicts deals) a.verdicts in
    record { cursor = advance a.cursor es; verdicts = rows }
