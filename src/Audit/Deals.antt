-- ===== src/Audit/Deals.antt =====
-- What the audit reads of a deal, and the verdicts that it writes (AtamuraOKK/audit/service.py,
-- AtamuraOKK/db/models/audit_verdict.py). Texts for people are left out.
use atamura_okk.Base.{
  ℕ, String, Bool, false, ◌&&◌, ◌||◌, Option, none, some, List, [], ◌∷◌, ◌==◌, str_eq, not,
  if◌then◌else◌,
}

-- A deal of `crm.deal.list`. `contact` is `CONTACT_ID`, with 0 for a missing one; the dates are
-- those that parse; `closedate` orders as its text does.
pub record Deal : Type 0 where
  pub id : ℕ
  pub title : String
  pub assigned_by_id : Option ℕ
  pub contact : ℕ
  pub date_create : Option ℕ
  pub closedate : Option ℕ
  pub reasons : List (Option String)

-- `reason_ids`
unfoldable pub reason_ids : List (Option String) → List String
reason_ids [] = []
reason_ids (none ∷ vs) = reason_ids vs
reason_ids (some v ∷ vs) =
    let rest = reason_ids vs in if str_eq v "" || str_eq v "0" then rest else v ∷ rest

-- The values of `settings` that the audit reads.
pub record AuditSettings : Type 0 where
  pub dup_same_project_reason_id : String
  pub dup_other_project_reason_id : String
  pub never_reached_reason_ids : List String
  pub llm_judge_enabled : Bool
  pub judge_batch_enabled : Bool
  pub companion_tm_category_id : String
  pub ingest_success_code : String

-- A row of `audit_verdicts`.
pub record AuditVerdict : Type 0 where
  pub deal_id : ℕ
  pub deal_title : String
  pub manager_id : Option ℕ
  pub assigned_by_id : Option ℕ
  pub client_key : ℕ
  pub reason_id : Option String
  pub verdict : String
  pub call_ids : List ℕ
  pub closed_at : Option ℕ
  pub notified_at : Option ℕ

-- `scalar(select(AuditVerdict).where(bitrix_deal_id == …))`
unfoldable pub get : ℕ → List AuditVerdict → Option AuditVerdict
get i [] = none
get i (v ∷ vs) = let rest = get i vs in if v.deal_id == i then some v else rest

-- The upsert of `_upsert_verdict`: `notified_at` is not among the columns that it updates.
unfoldable pub upsert : AuditVerdict → List AuditVerdict → List AuditVerdict
upsert new [] = new ∷ []
upsert new (v ∷ vs) =
    let rest = upsert new vs in
    if v.deal_id == new.deal_id then record new { notified_at = v.notified_at } ∷ vs else v ∷ rest

-- `dup_reason_ids`, read at a reason: the kind of duplicate that it claims.
pub data Kind : Type 0 where
  same other : Kind

unfoldable pub dup_kind : AuditSettings → String → Option Kind
dup_kind s reason =
    if not (str_eq s.dup_other_project_reason_id "") && str_eq s.dup_other_project_reason_id reason
    then some other
    else if not (str_eq s.dup_same_project_reason_id "")
        && str_eq s.dup_same_project_reason_id reason
    then some same
    else none

-- `never_reached_reason_ids`, tested for a reason.
unfoldable pub is_never_reached : List String → String → Bool
is_never_reached [] reason = false
is_never_reached (r ∷ rs) reason =
    (not (str_eq r "") && str_eq r reason) || is_never_reached rs reason
