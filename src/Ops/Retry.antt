-- ===== src/Ops/Retry.antt =====
-- AtamuraOKK/ops/retry.py: FAILED calls go back to the stage that their artifacts allow.
use atamura_okk.Base.{
  ℕ, ◌+◌, Bool, ◌&&◌, none, List, [], ◌∷◌, leb, if◌then◌else◌, take, select, sort_by,
}
use atamura_okk.Store.{CallStatus, Call, Transcript, Db, status_eq, put, updated_le, has_transcript}
use atamura_okk.Settings.{Settings}
use atamura_okk.Stages.Transcribe.{is_present}

pub record RetryStats : Type 0 where
  pub requeued : ℕ
  pub to_new : ℕ
  pub to_downloaded : ℕ
  pub to_transcribed : ℕ
  pub dead_lettered : ℕ

abbrev pub no_stats : RetryStats
no_stats = record {
  requeued = 0;
  to_new = 0;
  to_downloaded = 0;
  to_transcribed = 0;
  dead_lettered = 0;
}

-- The stage that a failed call is sent back to.
pub data Route : Type 0 where
  to_transcribed to_downloaded to_new : Route

unfoldable pub route : Bool → Call → Route
route with_transcript c =
    if with_transcript
    then Route.to_transcribed
    else if is_present c.audio_object_key
    then Route.to_downloaded
    else Route.to_new

abbrev pub route_status : Route → CallStatus
route_status Route.to_transcribed = CallStatus.transcribed
route_status Route.to_downloaded = CallStatus.downloaded
route_status Route.to_new = CallStatus.new

abbrev count_route : Route → RetryStats → RetryStats
count_route Route.to_transcribed st = record st {
  requeued = st.requeued + 1;
  to_transcribed = st.to_transcribed + 1;
}
count_route Route.to_downloaded st = record st {
  requeued = st.requeued + 1;
  to_downloaded = st.to_downloaded + 1;
}
count_route Route.to_new st = record st { requeued = st.requeued + 1; to_new = st.to_new + 1 }

-- The body of the loop over the failed calls.
unfoldable pub requeue_one : Settings → List Transcript → Call → RetryStats → Call × RetryStats
unfolding route
requeue_one s ts c st =
    if leb s.max_retries c.attempts
    then (c, record st { dead_lettered = st.dead_lettered + 1 })
    else (let r = route (has_transcript c.id ts) c in
        (record c { status = route_status r; error = none }, count_route r st))

unfoldable pub requeue_rows :
    Settings → List Transcript → List Call → List Call → RetryStats → List Call × RetryStats
unfolding requeue_one
requeue_rows s ts [] calls st = (calls, st)
requeue_rows s ts (c ∷ cs) calls st =
    let (c', st') = requeue_one s ts c st in requeue_rows s ts cs (put c' calls) st'

abbrev pub failed_calls : (ℕ → ℕ) → ℕ → List Call → List Call
failed_calls updated_at limit calls =
    take limit
      (sort_by (updated_le updated_at) (select (λ c. status_eq c.status CallStatus.failed) calls))

-- `requeue_failed`
unfoldable pub requeue_failed : (ℕ → ℕ) → Settings → ℕ → Db → Db × RetryStats
unfolding requeue_rows
requeue_failed updated_at s limit db =
    let (calls, st) =
      requeue_rows s db.transcripts (failed_calls updated_at limit db.calls) db.calls no_stats in
    (record db { calls = calls }, st)

-- The WHERE clause of `dead_letter`.
unfoldable pub is_dead_letter : Settings → Call → Bool
is_dead_letter s c = status_eq c.status CallStatus.failed && leb s.max_retries c.attempts
