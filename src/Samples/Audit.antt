-- ===== src/Samples/Audit.antt =====
-- A deal that is closed as a duplicate, and passes over the deals since the cursor.
use atamura_okk.Base.{
  ℕ, ◌≡◌, ◌≢◌, ◌↔◌, ◌⊎◌, refl, String, true, false, Option, none, some, List, [], ◌∷◌, All, arith,
  if◌then◌else◌, ◌==◌, mem,
}
use atamura_okk.Audit.Deals.{
  Deal, AuditSettings, AuditVerdict, Kind, get, reason_ids, dup_kind, is_never_reached,
}
use atamura_okk.Audit.Duplicates.{Crm, check_one}
use atamura_okk.Audit.Service.{World, Route, Audit, route, by_reason, run_audit}
use atamura_okk.Audit.Settled.{verdict_at}
use atamura_okk.Audit.Names.{IsFinal}
use atamura_okk.Audit.Cursor.{IsPassed, run_audit-loses_none, run_audit-unnamed}
use atamura_okk.Audit.Polling.{AuditBatch, is_awaited, Retrieved, ended, answered, poll_batches}
use atamura_okk.Audit.Polled.{IsEnding, poll_batches-frees}
use atamura_okk.Audit.Verdicts.{IsUnknown, check_one-accuses}

abbrev settings : AuditSettings
settings = record {
  dup_same_project_reason_id = "10";
  dup_other_project_reason_id = "11";
  never_reached_reason_ids = "12" ∷ [];
  llm_judge_enabled = true;
  judge_batch_enabled = false;
  companion_tm_category_id = "4";
  ingest_success_code = "200";
}

abbrev crm : Crm
crm = record {
  contacts_with = λ phones. some (5 ∷ []);
  deals_of = λ contacts. some [];
  leads_with = λ phones. some [];
  has_word = λ word title. false;
}

abbrev duplicate_deal : Deal
duplicate_deal = record {
  id = 1;
  title = "Keruen";
  assigned_by_id = some 7;
  contact = 5;
  date_create = some 100;
  closedate = some 200;
  reasons = some "10" ∷ [];
}

abbrev phones : List String
phones = "+7700" ∷ []

check_one-accuses_example :
    ((check_one settings crm duplicate_deal Kind.same phones).verdict ≡ "contradicted")
    ↔ ((phones ≢ []) × (duplicate_deal.contact ≢ 0) × IsUnknown crm duplicate_deal phones)
check_one-accuses_example = check_one-accuses settings crm duplicate_deal Kind.same phones

-- The client of the judged deal has a call, that of the unheard one has none.
abbrev calls : ℕ → List ℕ
calls contact = if contact == 5 then 31 ∷ [] else []

abbrev world : (Deal → Option String) → World
world judge = record {
  transcripts = calls;
  phones = λ contact. phones;
  managers = λ user. none;
  crm = crm;
  statistics = λ phone window. some [];
  judge = judge;
  accepted = λ deal. true;
}

abbrev judged_deal : Deal
judged_deal = record duplicate_deal { id = 2; closedate = some 300; reasons = some "20" ∷ [] }

abbrev unheard_deal : Deal
unheard_deal = record judged_deal { id = 3; contact = 6; closedate = some 400 }

abbrev audit : Audit
audit = record { cursor = some 200; verdicts = [] }

abbrev deals : List Deal
deals = duplicate_deal ∷ judged_deal ∷ unheard_deal ∷ []

abbrev names : Deal → Option String
names deal = some "supported"

run_audit-loses_none_example :
    let w = world names in
    let a' = run_audit settings w deals audit in
    All
      (λ d.
        (IsPassed a'.cursor d.closedate
          → IsFinal (verdict_at d.id a'.verdicts)
            ⊎ (route settings w audit.verdicts d ≡ Route.no_transcript))
        × (IsFinal (verdict_at d.id audit.verdicts)
            → verdict_at d.id a'.verdicts ≡ verdict_at d.id audit.verdicts))
      deals
run_audit-loses_none_example =
    run_audit-loses_none settings (world names) (λ deal. (refl, refl)) deals audit
      (refl, (refl, (refl, tt))) ((omega arith, (omega arith, tt)), ((omega arith, tt), (tt, tt)))
      (omega arith, (omega arith, (omega arith, tt)))

abbrev silent : Deal → Option String
silent deal = none

run_audit-unnamed_example :
    let a' = run_audit settings (world silent) (judged_deal ∷ unheard_deal ∷ []) audit in
    (verdict_at 2 a'.verdicts ≡ some "error") × (a'.cursor ≡ some 400)
unfolding route get reason_ids dup_kind by_reason is_never_reached
run_audit-unnamed_example =
    run_audit-unnamed settings (world silent) judged_deal unheard_deal 400 audit refl refl refl refl
      refl refl

-- A batch of two deals has ended, with an answer for one of them.
abbrev waiting : ℕ → AuditVerdict
waiting i = record {
  deal_id = i;
  deal_title = "Keruen";
  manager_id = none;
  assigned_by_id = some 7;
  client_key = 5;
  reason_id = some "20";
  verdict = "pending";
  call_ids = 31 ∷ [];
  closed_at = some 300;
  notified_at = none;
}

abbrev batch : AuditBatch
batch = record { id = "b1"; is_open = true; deal_ids = 2 ∷ 4 ∷ []; succeeded = 0; errored = 0 }

abbrev results : AuditBatch → Retrieved
results b = ended (record { deal_id = some 2; judged = answered false (some "contradicted") } ∷ [])

abbrev waiting_rows : List AuditVerdict
waiting_rows = waiting 2 ∷ waiting 4 ∷ []

poll_batches-frees_example :
    let rows' = (poll_batches results (batch ∷ []) waiting_rows).1 in
    All
      (λ b.
        IsEnding b.is_open (results b)
        → (d : Deal) → mem d.id b.deal_ids ≡ true
        → (is_awaited d.id rows' ≡ false)
          × ((s : AuditSettings) (w : World) → route s w rows' d ≢ Route.in_flight))
      (batch ∷ [])
    × ((i : ℕ) → is_awaited i waiting_rows ≡ false → verdict_at i rows' ≡ verdict_at i waiting_rows)
poll_batches-frees_example = poll_batches-frees results (λ b. (refl, tt)) (batch ∷ []) waiting_rows
