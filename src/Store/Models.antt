-- ===== src/Store/Models.antt =====
-- AtamuraOKK/db/models: enums.py, call.py, transcript.py, score.py, score_batch.py.
-- A timestamp is a number of seconds on one clock; a nullable column is an option.
use atamura_okk.Scoring.Assemble.{Payload}
use atamura_okk.Base.{ℕ, String, Bool, true, false, Option, List}

pub data CallDirection : Type 0 where
  outbound inbound unknown : CallDirection

pub data CallStatus : Type 0 where
  new downloading downloaded transcribing transcribed scoring : CallStatus
  scored pushed failed skipped pending_kk : CallStatus

-- The in-flight claims (`*ING`).
abbrev pub in_flight : CallStatus → Bool
in_flight CallStatus.downloading = true
in_flight CallStatus.transcribing = true
in_flight CallStatus.scoring = true
in_flight _ = false

abbrev pub status_eq : CallStatus → CallStatus → Bool
status_eq CallStatus.new CallStatus.new = true
status_eq CallStatus.downloading CallStatus.downloading = true
status_eq CallStatus.downloaded CallStatus.downloaded = true
status_eq CallStatus.transcribing CallStatus.transcribing = true
status_eq CallStatus.transcribed CallStatus.transcribed = true
status_eq CallStatus.scoring CallStatus.scoring = true
status_eq CallStatus.scored CallStatus.scored = true
status_eq CallStatus.pushed CallStatus.pushed = true
status_eq CallStatus.failed CallStatus.failed = true
status_eq CallStatus.skipped CallStatus.skipped = true
status_eq CallStatus.pending_kk CallStatus.pending_kk = true
status_eq _ _ = false

pub record Call : Type 0 where
  pub id : ℕ
  pub bitrix_call_id : String
  pub bitrix_row_id : Option ℕ
  pub portal_user_id : Option ℕ
  pub manager_id : Option ℕ
  pub direction : CallDirection
  pub started_at : Option ℕ
  pub duration_sec : ℕ
  pub phone_number : Option String
  pub crm_entity_type : Option String
  pub crm_entity_id : Option ℕ
  pub crm_activity_id : Option ℕ
  pub client_key : Option String
  pub client_category : Option String
  pub recording_url : Option String
  pub record_file_id : Option ℕ
  pub audio_object_key : Option String
  pub is_stereo : Option Bool
  pub language : Option String
  pub is_first_call : Bool
  pub client_qualified : Option Bool
  pub client_qualified_at : Option ℕ
  pub analyzable : Bool
  pub status : CallStatus
  pub skip_reason : Option String
  pub error : Option String
  pub attempts : ℕ
  pub claimed_at : Option ℕ
  pub created_at : ℕ

-- One speech segment of a transcript.
pub record Segment : Type 0 where
  pub speaker : String
  pub text : String

pub record Transcript : Type 0 where
  pub call_id : ℕ
  pub language : Option String
  pub full_text : String
  pub segments : List Segment
  pub manager_side_applied : Bool
  pub model : Option String

-- `criteria` is the payload of `_assemble`, `sentiment` its two entries.
pub record Score : Type 0 where
  pub call_id : ℕ
  pub rubric_version : String
  pub total_score : ℕ
  pub criteria : Payload
  pub sentiment_customer : String
  pub sentiment_agent : String
  pub summary : String
  pub flags : List String
  pub model : String
  pub manager_spoken_name : Option String
  pub notified_at : Option ℕ

pub record ScoreBatch : Type 0 where
  pub id : ℕ
  pub provider_batch_id : String
  pub is_open : Bool
  pub call_ids : List ℕ
  pub rubric_version : String
  pub succeeded : ℕ
  pub errored : ℕ

pub record Manager : Type 0 where
  pub id : ℕ
  pub bitrix_user_id : ℕ

pub record Db : Type 0 where
  pub calls : List Call
  pub transcripts : List Transcript
  pub scores : List Score
  pub batches : List ScoreBatch
  pub managers : List Manager
