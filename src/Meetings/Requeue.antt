-- ===== src/Meetings/Requeue.antt =====
-- AtamuraOKK/scoring/meetings/store.py: the bulk changes of the table, its counts, and the marker
-- of what Postgres has.
use Prim.Native.String.{count}
use atamura_okk.Base.{
  ℕ, String, Bool, true, false, ◌&&◌, Option, none, some, List, length, take, select, sort_by,
  sweep, ltb, str_eq, is_some, not, if◌then◌else◌,
}
use atamura_okk.Meetings.Recordings.{MeetingStatus, is_status, Recording, older, set}

-- The truth of a text column: neither NULL nor empty.
abbrev pub is_present : Option String → Bool
is_present none = false
is_present (some t) = not (str_eq t "")

abbrev pub file_exists : (String → Bool) → Option String → Bool
file_exists exists none = false
file_exists exists (some path) = not (str_eq path "") && exists path

-- Where `reset_failed` sends a row.
unfoldable pub resume_status : (String → Bool) → Recording → MeetingStatus
resume_status exists r =
    if is_present r.transcript
    then MeetingStatus.transcribed
    else if file_exists exists r.audio_path
    then MeetingStatus.downloaded
    else MeetingStatus.new

abbrev pub resumed : MeetingStatus → Recording → Recording
resumed status r = record r { status = status; attempts = 0; error = none }

-- The bodies of the two loops.
unfoldable pub reset_row : (String → Bool) → Recording → List Recording → List Recording
unfolding resume_status
reset_row exists r = set r.file_id (resumed (resume_status exists r))

-- `reset_failed`
unfoldable pub reset_failed : (String → Bool) → List Recording → List Recording × ℕ
unfolding reset_row sweep
reset_failed exists rows =
    let failed = select (λ r. is_status r.status MeetingStatus.failed) rows in
    (sweep (reset_row exists) failed rows, length failed)

abbrev text_length : Option String → ℕ
text_length none = 0
text_length (some t) = count t

abbrev pub is_longer : Option ℕ → Recording → Bool
is_longer none r = true
is_longer (some chars) r = ltb chars (text_length r.transcript)

abbrev pub unscored : Recording → Recording
unscored r = record r {
  status = MeetingStatus.transcribed;
  score_json = none;
  score_pct = none;
  passed = none;
  pushed_at = none;
  error = none;
  attempts = 0;
}

unfoldable pub unscore_row : Recording → List Recording → List Recording
unscore_row r = set r.file_id unscored

-- `reset_for_rescore`
unfoldable pub reset_for_rescore : Option ℕ → List Recording → List Recording × ℕ
unfolding unscore_row sweep
reset_for_rescore min_transcript_chars rows =
    let picked =
      select (λ r. is_status r.status MeetingStatus.scored && is_longer min_transcript_chars r)
        rows in
    (sweep unscore_row picked rows, length picked)

-- `claim_unpushed`
unfoldable pub claim_unpushed : ℕ → List Recording → List Recording
claim_unpushed limit rows = take limit (
    sort_by older
      (select (λ r. is_status r.status MeetingStatus.scored && not (is_some r.pushed_at)) rows))

abbrev pub pushed : ℕ → Recording → Recording
pushed now r = record r { pushed_at = some now }

unfoldable pub mark_pushed : ℕ → ℕ → List Recording → List Recording
mark_pushed now i = set i (pushed now)

-- One entry of `counts`; a status that is not there counts 0.
unfoldable pub count_of : MeetingStatus → List Recording → ℕ
count_of status rows = length (select (λ r. is_status r.status status) rows)
