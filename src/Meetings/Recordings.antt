-- ===== src/Meetings/Recordings.antt =====
-- AtamuraOKK/scoring/meetings/store.py: the recordings of meetings, one row for each file.
-- A table is the list of its rows; each method is a function on it. Times are numbers; `exists` of
-- `reset_failed` and the clock are arguments. The column `updated_at`, which nothing reads, is left
-- out.
use atamura_okk.Base.{
  ℕ, ◌+◌, String, Bool, true, false, Option, none, some, List, [], ◌∷◌, take, select, sort_by, leb,
  ◌==◌, if◌then◌else◌,
}

-- `MeetingStatus`
pub data MeetingStatus : Type 0 where
  new downloaded transcribed scored failed skipped : MeetingStatus

abbrev status_code : MeetingStatus → ℕ
status_code MeetingStatus.new = 0
status_code MeetingStatus.downloaded = 1
status_code MeetingStatus.transcribed = 2
status_code MeetingStatus.scored = 3
status_code MeetingStatus.failed = 4
status_code MeetingStatus.skipped = 5

abbrev pub is_status : MeetingStatus → MeetingStatus → Bool
is_status s t = status_code s == status_code t

-- What the Disk says of a file (`MeetingFile`).
pub record MeetingFile : Type 0 where
  pub file_id : ℕ
  pub name : String
  pub ext : String
  pub size : ℕ
  pub folder_path : String
  pub download_url : Option String
  pub created_at : Option ℕ
  pub created_by : Option ℕ
  pub meeting_at : Option ℕ

-- A row of `recordings`.
pub record Recording : Type 0 where
  pub file_id : ℕ
  pub name : String
  pub ext : String
  pub size : ℕ
  pub folder_path : String
  pub download_url : Option String
  pub created_at : Option ℕ
  pub created_by : Option ℕ
  pub meeting_at : Option ℕ
  pub status : MeetingStatus
  pub audio_path : Option String
  pub duration_sec : Option ℕ
  pub transcript : Option String
  pub language : Option String
  pub score_json : Option String
  pub score_pct : Option ℕ
  pub passed : Option Bool
  pub skip_reason : Option String
  pub error : Option String
  pub attempts : ℕ
  pub pushed_at : Option ℕ
  pub inserted_at : ℕ

-- The INSERT of `upsert_new`.
abbrev pub inserted : ℕ → MeetingFile → Recording
inserted now rec = record {
  file_id = rec.file_id;
  name = rec.name;
  ext = rec.ext;
  size = rec.size;
  folder_path = rec.folder_path;
  download_url = rec.download_url;
  created_at = rec.created_at;
  created_by = rec.created_by;
  meeting_at = rec.meeting_at;
  status = MeetingStatus.new;
  audio_path = none;
  duration_sec = none;
  transcript = none;
  language = none;
  score_json = none;
  score_pct = none;
  passed = none;
  skip_reason = none;
  error = none;
  attempts = 0;
  pushed_at = none;
  inserted_at = now;
}

-- Its `ON CONFLICT(file_id) DO UPDATE`.
abbrev pub refreshed : MeetingFile → Recording → Recording
refreshed rec r = record r {
  name = rec.name;
  ext = rec.ext;
  size = rec.size;
  folder_path = rec.folder_path;
  download_url = rec.download_url;
  created_at = rec.created_at;
  created_by = rec.created_by;
  meeting_at = rec.meeting_at;
}

unfoldable pub upsert_rows : ℕ → MeetingFile → List Recording → List Recording
upsert_rows now rec [] = inserted now rec ∷ []
upsert_rows now rec (r ∷ rs) =
    let rest = upsert_rows now rec rs in
    if r.file_id == rec.file_id then refreshed rec r ∷ rs else r ∷ rest

-- `get`
unfoldable pub get : ℕ → List Recording → Option Recording
get i [] = none
get i (r ∷ rs) = let rest = get i rs in if r.file_id == i then some r else rest

abbrev pub is_inserted_at : ℕ → Option Recording → Bool
is_inserted_at now none = false
is_inserted_at now (some r) = r.inserted_at == now

-- `upsert_new`, with whether the recording was new.
unfoldable pub upsert_new : ℕ → MeetingFile → List Recording → List Recording × Bool
unfolding upsert_rows get
upsert_new now rec rows =
    let rows' = upsert_rows now rec rows in (rows', is_inserted_at now (get rec.file_id rows'))

-- `COALESCE(meeting_at, created_at)`; SQLite sorts NULL first.
abbrev sort_key : Recording → Option ℕ
sort_key r = elim r.meeting_at [ none ↦ r.created_at | some t ↦ some t ]

abbrev key_le : Option ℕ → Option ℕ → Bool → Bool
key_le none none tie = tie
key_le none (some _) tie = true
key_le (some _) none tie = false
key_le (some a) (some b) tie = if a == b then tie else leb a b

abbrev pub older : Recording → Recording → Bool
older r s = key_le (sort_key r) (sort_key s) (leb r.file_id s.file_id)

-- `claim`
unfoldable pub claim : MeetingStatus → ℕ → List Recording → List Recording
claim status limit rows = take limit (sort_by older (select (λ r. is_status r.status status) rows))

-- `_set`: the UPDATE of some columns of one row.
unfoldable pub set : ℕ → (Recording → Recording) → List Recording → List Recording
set i fields [] = []
set i fields (r ∷ rs) = (if r.file_id == i then fields r else r) ∷ set i fields rs

unfoldable pub mark_downloaded : ℕ → String → ℕ → List Recording → List Recording
mark_downloaded i audio_path duration_sec = set i λ r. record r {
  status = MeetingStatus.downloaded;
  audio_path = some audio_path;
  duration_sec = some duration_sec;
  error = none;
}

unfoldable pub mark_transcribed : ℕ → String → String → List Recording → List Recording
mark_transcribed i transcript language = set i λ r. record r {
  status = MeetingStatus.transcribed;
  transcript = some transcript;
  language = some language;
  error = none;
}

unfoldable pub mark_scored : ℕ → String → ℕ → Bool → List Recording → List Recording
mark_scored i score_json score_pct passed = set i λ r. record r {
  status = MeetingStatus.scored;
  score_json = some score_json;
  score_pct = some score_pct;
  passed = some passed;
  error = none;
}

unfoldable pub mark_skipped : ℕ → String → List Recording → List Recording
mark_skipped i reason =
    set i λ r. record r { status = MeetingStatus.skipped; skip_reason = some reason }

abbrev attempts_of : Option Recording → ℕ
attempts_of none = 0
attempts_of (some r) = r.attempts

-- The columns that `bump_attempt` writes.
abbrev pub bumped : ℕ → String → Bool → Recording → Recording
bumped attempts error dead r = record r {
  attempts = attempts;
  error = some error;
  status = if dead then MeetingStatus.failed else r.status;
}

-- `bump_attempt`, with whether the recording is a dead letter now.
unfoldable pub bump_attempt : ℕ → String → ℕ → List Recording → List Recording × Bool
unfolding get
bump_attempt i error max_attempts rows =
    let attempts = attempts_of (get i rows) + 1 in
    let dead = leb max_attempts attempts in (set i (bumped attempts error dead) rows, dead)
