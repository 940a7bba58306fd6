-- ===== src/Ingestion/Upsert.antt =====
-- AtamuraOKK/ingestion/service.py, `_upsert_call`: insert or update by `bitrix_call_id`.
use atamura_okk.Base.{
  ◌&&◌, not, is_some, Bool, ℕ, suc, String, false, Option, none, some, List, [], ◌∷◌, str_eq, ◌==◌,
  max, if◌then◌else◌,
}
use atamura_okk.Store.{update_where, CallDirection, CallStatus, Call, Db}

-- The columns that ingestion owns, as `to_call_fields` gives them.
pub record CallFields : Type 0 where
  pub bitrix_call_id : String
  pub bitrix_row_id : Option ℕ
  pub portal_user_id : Option ℕ
  pub direction : CallDirection
  pub started_at : Option ℕ
  pub duration_sec : ℕ
  pub phone_number : Option String
  pub crm_entity_type : Option String
  pub crm_entity_id : Option ℕ
  pub crm_activity_id : Option ℕ
  pub client_key : Option String
  pub recording_url : Option String
  pub record_file_id : Option ℕ

-- The row of an INSERT: every other column has its default.
unfoldable pub inserted : ℕ → ℕ → CallFields → Call
inserted now i f = record {
  id = i;
  bitrix_call_id = f.bitrix_call_id;
  bitrix_row_id = f.bitrix_row_id;
  portal_user_id = f.portal_user_id;
  manager_id = none;
  direction = f.direction;
  started_at = f.started_at;
  duration_sec = f.duration_sec;
  phone_number = f.phone_number;
  crm_entity_type = f.crm_entity_type;
  crm_entity_id = f.crm_entity_id;
  crm_activity_id = f.crm_activity_id;
  client_key = f.client_key;
  client_category = none;
  recording_url = f.recording_url;
  record_file_id = f.record_file_id;
  audio_object_key = none;
  is_stereo = none;
  language = none;
  is_first_call = false;
  client_qualified = none;
  client_qualified_at = none;
  analyzable = false;
  status = CallStatus.new;
  skip_reason = none;
  error = none;
  attempts = 0;
  claimed_at = none;
  created_at = now;
}

-- The SET clause of the conflict branch.
unfoldable pub refreshed : CallFields → Call → Call
refreshed f c = record c {
  bitrix_row_id = f.bitrix_row_id;
  portal_user_id = f.portal_user_id;
  direction = f.direction;
  started_at = f.started_at;
  duration_sec = f.duration_sec;
  phone_number = f.phone_number;
  crm_entity_type = f.crm_entity_type;
  crm_entity_id = f.crm_entity_id;
  crm_activity_id = f.crm_activity_id;
  client_key = f.client_key;
  recording_url = f.recording_url;
  record_file_id = f.record_file_id;
}

-- A new row's id is above every id in the table (the sequence).
unfoldable pub next_id : List Call → ℕ
next_id [] = 1
next_id (c ∷ cs) = max (suc c.id) (next_id cs)

unfoldable pub upsert_rows : ℕ → ℕ → CallFields → List Call → List Call
unfolding inserted refreshed
upsert_rows now i f [] = inserted now i f ∷ []
upsert_rows now i f (c ∷ cs) =
    let rest = upsert_rows now i f cs in
    if str_eq c.bitrix_call_id f.bitrix_call_id then refreshed f c ∷ cs else c ∷ rest

unfoldable pub upsert_call : ℕ → CallFields → Db → Db
unfolding upsert_rows
upsert_call now f db = record db { calls = upsert_rows now (next_id db.calls) f db.calls }

-- `_attribute_managers`, the UPDATE for one user: only calls with no manager yet.
unfoldable pub is_unattributed : ℕ → Call → Bool
is_unattributed user c =
    elim c.portal_user_id [ none ↦ false | some u ↦ u == user ] && not (is_some c.manager_id)

abbrev pub attributed_row : ℕ → Call → Call
attributed_row manager c = record c { manager_id = some manager }

unfoldable pub attribute_manager : ℕ → ℕ → List Call → List Call
attribute_manager user manager calls =
    update_where (is_unattributed user) (attributed_row manager) calls
