-- ===== src/Samples/Data.antt =====
-- A portal with one client, and the first steps of a call through the pipeline.
use mathlib.Core.List.{Memᴰ}
use atamura_okk.Base.{
  ℕ, ◌≡◌, refl, ap, mem, String, Bool, false, true, Option, none, some, [], ◌∷◌, sort_by,
}
use atamura_okk.Store.{CallDirection, CallStatus, Call, Db, put, get, update_where, claimed}
use atamura_okk.Settings.{defaults}
use atamura_okk.Dispatch.Claim.{claim_ready, candidates, is_claimable, claim_row}
use atamura_okk.Ingestion.Scope.{
  Qualification, unknown_qualification, no_stats, recompute_client, put_all, scope_rows, history_le,
  stamp, apply_scope, is_frozen, skip_reason_of,
}
use atamura_okk.Ingestion.Upsert.{
  CallFields, upsert_call, next_id, upsert_rows, inserted, refreshed,
}
use atamura_okk.Scoring.CallScore.{CallScore, CriterionScore, ManagerSide, PaymentMethod}
use atamura_okk.Scoring.Rubric.{RawCriterion, Rubric}
use atamura_okk.Stages.Score.{Env}
use atamura_okk.Pipeline.System.{System, initial, Transaction, Step, Reach}

abbrev pub fields : CallFields
fields = record {
  bitrix_call_id = "B1";
  bitrix_row_id = some 11;
  portal_user_id = some 5;
  direction = CallDirection.outbound;
  started_at = some 1000;
  duration_sec = 120;
  phone_number = some "+7";
  crm_entity_type = some "LEAD";
  crm_entity_id = some 3;
  crm_activity_id = none;
  client_key = some "lead:3";
  recording_url = some "https://portal/rec";
  record_file_id = none;
}

abbrev pub quals : String → Qualification
quals key = unknown_qualification

abbrev pub cats : String → Option String
cats key = none

abbrev pub unlocked : ℕ → Bool
unlocked i = false

-- The call is ingested, comes into scope, and is claimed for its download at time 100.
abbrev pub ingested : Db
ingested = upsert_call 1 fields initial.db

abbrev pub scoped : Db
scoped = (recompute_client defaults quals cats "lead:3" ingested no_stats).0

abbrev pub downloading : Db
downloading = (claim_ready 100 unlocked CallStatus.new CallStatus.downloading 50 none none scoped).0

abbrev pub at_scoped : System
at_scoped = record initial { db = scoped }

abbrev pub at_downloading : System
at_downloading = record initial { db = downloading }

pub Reach-scoped : Reach defaults at_scoped
Reach-scoped =
    Reach.next (Reach.next Reach.start (Step.transaction (Transaction.upserted 1 fields)))
      (Step.transaction (Transaction.recomputed quals cats "lead:3" no_stats))

pub Reach-downloading : Reach defaults at_downloading
Reach-downloading =
    Reach.next Reach-scoped
      (Step.transaction (Transaction.claimed 100 unlocked (Memᴰ.head refl) 50 none none))

-- The call's row before and after the claim.
abbrev pub scoped_row : Call
scoped_row = record {
  id = 1;
  bitrix_call_id = "B1";
  bitrix_row_id = some 11;
  portal_user_id = some 5;
  manager_id = none;
  direction = CallDirection.outbound;
  started_at = some 1000;
  duration_sec = 120;
  phone_number = some "+7";
  crm_entity_type = some "LEAD";
  crm_entity_id = some 3;
  crm_activity_id = none;
  client_key = some "lead:3";
  client_category = none;
  recording_url = some "https://portal/rec";
  record_file_id = none;
  audio_object_key = none;
  is_stereo = none;
  language = none;
  is_first_call = true;
  client_qualified = none;
  client_qualified_at = none;
  analyzable = true;
  status = CallStatus.new;
  skip_reason = none;
  error = none;
  attempts = 0;
  claimed_at = none;
  created_at = 1;
}

abbrev pub downloading_row : Call
downloading_row = record scoped_row { status = CallStatus.downloading; claimed_at = some 100 }

pub scoped_calls : scoped.calls ≡ scoped_row ∷ []
unfolding recompute_client put_all scope_rows sort_by upsert_call next_id put upsert_rows inserted
    refreshed history_le stamp apply_scope is_frozen skip_reason_of
scoped_calls = refl

pub found_scoped : get 1 scoped.calls ≡ some scoped_row
unfolding get
found_scoped = ap (λ cs. get 1 cs) scoped_calls

pub downloading_calls : downloading.calls ≡ downloading_row ∷ []
unfolding recompute_client put_all scope_rows sort_by upsert_call next_id put upsert_rows inserted
    refreshed history_le stamp apply_scope is_frozen skip_reason_of claim_ready candidates
    is_claimable claim_row update_where
downloading_calls = refl

pub found_downloading : get 1 downloading.calls ≡ some downloading_row
unfolding get
found_downloading = ap (λ cs. get 1 cs) downloading_calls

pub downloading_granted :
    mem 1 (claim_ready 100 unlocked CallStatus.new CallStatus.downloading 50 none none scoped).1
    ≡ true
unfolding recompute_client put_all scope_rows sort_by upsert_call next_id put upsert_rows inserted
    refreshed history_le stamp apply_scope is_frozen skip_reason_of claim_ready candidates
    is_claimable claim_row update_where
downloading_granted = refl

-- A call in SCORING, a score that has been alerted for, and the assessment behind it.
abbrev pub scoring_row : Call
scoring_row = record downloading_row {
  status = CallStatus.scoring;
  manager_id = some 7;
  started_at = some 1000;
  audio_object_key = some "calls/B1.mp3";
}

abbrev pub in_scoring : Db
in_scoring = record initial.db { calls = scoring_row ∷ [] }

pub claimed_scoring : claimed CallStatus.scoring 1 in_scoring ≡ some scoring_row
unfolding claimed get
claimed_scoring = refl

abbrev pub verdict : CriterionScore
verdict = record {
  id = 1;
  score = 1;
  applicable = true;
  justification = "";
  evidence = "";
  recommendation = "";
}

abbrev pub assessed : CallScore
assessed = record {
  call_type = "квалификация";
  is_qualification_call = true;
  manager_identified = true;
  manager_spoken_name = none;
  manager_side = ManagerSide.side_b;
  criteria = verdict ∷ record verdict { id = 2; score = 0 } ∷ [];
  objections_present = false;
  sentiment_customer = "нейтральный";
  sentiment_agent = "нейтральный";
  summary = "";
  red_flags = [];
  target_status = "целевой";
  strengths = "";
  growth_zone = "";
  training_recommendation = "";
  payment_method = PaymentMethod.cash;
  wants_to_visit = true;
  on_premises = false;
}

abbrev pub raw_criterion : RawCriterion
raw_criterion = record {
  id = 1;
  text = "Приветствие";
  max = 1;
  source = "call";
  yes = "";
  no = "";
  na = none;
  where_to_look = "";
}

abbrev pub rubric : Rubric
rubric = record {
  version = "tm-call-v4";
  name = "ТМ";
  zones = record { strong = 85; normal = 70; borderline = 50 };
  raw_blocks =
      record {
        id = "contact";
        name = "Контакт";
        criteria = raw_criterion ∷ record raw_criterion { id = 2 } ∷ [];
        na_if_no_objections = false;
      }
      ∷ record {
        id = "objections";
        name = "Возражения";
        criteria = record raw_criterion { id = 3 } ∷ [];
        na_if_no_objections = true;
      }
      ∷ [];
}

abbrev pub env : Env
env = record {
  now = 1100;
  settings = defaults;
  rubric = rubric;
  model_label = "anthropic/model";
  send_works = true;
}
