-- ===== src/Meetings/Drain.antt =====
-- AtamuraOKK/scoring/meetings/push.py, `push_pending`, and recordings.py: one pass over the Disk, a
-- pass over all stages, the operator's requeues and `drain_pipeline`.
use atamura_okk.Base.{
  ℕ, zero, suc, ◌+◌, String, Bool, none, some, List, [], ◌∷◌, length, leb, ◌==◌, select, sweep, not,
  if◌then◌else◌,
}
use atamura_okk.Meetings.Recordings.{MeetingStatus, Recording, MeetingFile, upsert_new}
use atamura_okk.Meetings.Requeue.{
  claim_unpushed, mark_pushed, count_of, reset_failed, reset_for_rescore,
}
use atamura_okk.Meetings.Passes.{
  Config, World, download_pending, transcribe_pending, score_pending, to_int,
}

pub record PushStats : Type 0 where
  pub attempted : ℕ
  pub pushed : ℕ
  pub failed : ℕ

-- The body of the loop over the ids that Postgres has now.
unfoldable pub mark_row : ℕ → Recording → List Recording → List Recording
unfolding mark_pushed
mark_row now r = mark_pushed now r.file_id

-- `push_pending`: rows with a bad payload drop out; a failed write marks none.
unfoldable pub push_pending : World → ℕ → List Recording → List Recording × PushStats
unfolding claim_unpushed mark_row sweep
push_pending w limit rows =
    let claimed = claim_unpushed limit rows in
    let payloads = select w.payload claimed in
    let bad = length (select (λ r. not (w.payload r)) claimed) in
    if w.postgres
    then (
      sweep (mark_row w.now) payloads rows,
      record { attempted = length claimed; pushed = length payloads; failed = bad },
    )
    else (rows, record { attempted = length claimed; pushed = 0; failed = bad + length payloads })

-- `ingest_recordings`: the rows, with the counters `scanned` and `new`.
unfoldable pub ingest_recordings :
    ℕ → List MeetingFile → List Recording × ℕ × ℕ → List Recording × ℕ × ℕ
unfolding upsert_new
ingest_recordings now [] acc = acc
ingest_recordings now (f ∷ fs) (rows, scanned, fresh) =
    let (rows', was_new) = upsert_new now f rows in
    ingest_recordings now fs (rows', scanned + 1, fresh + to_int was_new)

-- The stages of one pass behind the Disk scan, and how many rows moved forward.
unfoldable pub stages : Config → World → ℕ → List Recording → List Recording × ℕ
unfolding download_pending transcribe_pending score_pending push_pending
stages c w limit rows =
    let (rows1, downloaded) = download_pending c w limit rows in
    let (rows2, transcribed) = transcribe_pending c w limit rows1 in
    let (rows3, scored) = score_pending c w limit rows2 in
    let (rows4, pushed) = push_pending w limit rows3 in
    (rows4, downloaded.downloaded + transcribed.transcribed + scored.scored)

-- `run_pipeline`
unfoldable pub run_pipeline :
    Config → World → ℕ → List MeetingFile → List Recording → List Recording
unfolding ingest_recordings stages
run_pipeline c w limit files rows =
    (stages c w limit (ingest_recordings w.now files (rows, 0, 0)).0).0

-- `active`
unfoldable pub active : List Recording → ℕ
unfolding count_of
active rows =
    count_of MeetingStatus.new rows
    + count_of MeetingStatus.downloaded rows
    + count_of MeetingStatus.transcribed rows

-- Why the loop of `drain_pipeline` stops.
pub data Stop : Type 0 where
  drained stalled out_of_passes : Stop

pub record Drained : Type 0 where
  pub rows : List Recording
  pub passes : ℕ
  pub stop : Stop

-- `stalled + 1 if progressed == 0 else 0`
abbrev pub stalls : ℕ → ℕ → ℕ
stalls progressed idle = if progressed == 0 then idle + 1 else 0

-- The loop, with `left` passes to go, the number of the idle passes just before, and the world of
-- each pass. `limit` is the argument or the configured one.
unfoldable pub drain_from : Config → (ℕ → World) → ℕ → ℕ → ℕ → ℕ → List Recording → Drained
unfolding stages active
drain_from c worlds limit zero passes idle rows = record {
  rows = rows;
  passes = passes;
  stop = out_of_passes;
}
drain_from c worlds limit (suc left) passes idle rows =
    let (rows', progressed) = stages c (worlds passes) limit rows in
    let again = drain_from c worlds limit left (passes + 1) (stalls progressed idle) rows' in
    if active rows' == 0
    then record { rows = rows'; passes = passes + 1; stop = drained }
    else if leb 2 (stalls progressed idle)
    then record { rows = rows'; passes = passes + 1; stop = Stop.stalled }
    else again

-- `drain_pipeline` behind its Disk scan.
unfoldable pub drain_pipeline : Config → (ℕ → World) → ℕ → ℕ → List Recording → Drained
unfolding drain_from
drain_pipeline c worlds limit max_passes rows = drain_from c worlds limit max_passes 0 0 rows

-- `requeue_failed`
unfoldable pub requeue_failed : (String → Bool) → List Recording → List Recording × ℕ
unfolding reset_failed
requeue_failed exists rows = reset_failed exists rows

-- `rescore`: by default the meetings whose transcript is longer than one chunk.
unfoldable pub rescore : Bool → ℕ → List Recording → List Recording × ℕ
unfolding reset_for_rescore
rescore all_scored chunk_chars rows =
    reset_for_rescore (if all_scored then none else some chunk_chars) rows
