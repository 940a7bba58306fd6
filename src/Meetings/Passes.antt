-- ===== src/Meetings/Passes.antt =====
-- The stages of the meeting pipeline: `download_pending` (AtamuraOKK/scoring/meetings/download.py),
-- `transcribe_pending` (transcribe.py), `score_pending` and `drain_pipeline` (recordings.py) and
-- `push_pending` (push.py). What the Disk, the engines, the scorer and Postgres do is an argument.
-- Texts for people, such as the reason of a skip, are shortened. A transcription pass writes its
-- rows in the order of the claim. An exception that a download does not catch ends the process and
-- is left out.
use atamura_okk.Base.{
  ℕ, ◌+◌, String, Bool, true, false, ◌&&◌, List, ltb, ◌==◌, not, sweep, if◌then◌else◌,
}
use atamura_okk.Meetings.Recordings.{
  MeetingStatus, Recording, claim, mark_downloaded, mark_transcribed, mark_scored, mark_skipped,
  bump_attempt,
}
use atamura_okk.Meetings.Requeue.{file_exists}

-- The values of `config` that the stages read.
pub record Config : Type 0 where
  pub max_attempts : ℕ
  pub min_duration_sec : ℕ

-- What the world does in one pass, by recording.
pub data Fetched : Type 0 where
  content : String → ℕ → Fetched
  fetch_failed : String → Fetched

pub data Heard : Type 0 where
  text : String → String → Heard
  hearing_failed : String → Heard

pub data Judged : Type 0 where
  judgement : String → ℕ → Bool → Judged
  judging_failed : String → Judged

pub record World : Type 0 where
  pub fetch : Recording → Fetched
  pub exists : String → Bool
  pub hear : Recording → Heard
  pub is_blank : String → Bool
  pub judge : Recording → Judged
  pub payload : Recording → Bool
  pub postgres : Bool
  pub now : ℕ

pub record DownloadStats : Type 0 where
  pub attempted : ℕ
  pub downloaded : ℕ
  pub skipped : ℕ
  pub failed : ℕ

pub record TranscribeStats : Type 0 where
  pub attempted : ℕ
  pub transcribed : ℕ
  pub failed : ℕ

pub record ScoreStats : Type 0 where
  pub attempted : ℕ
  pub scored : ℕ
  pub failed : ℕ

-- `int(dead)`
abbrev pub to_int : Bool → ℕ
to_int true = 1
to_int false = 0

module _ (c : Config) where
  -- The `except` of each loop: one more attempt, and whether the row is dead now.
  abbrev pub bump : Recording → String → List Recording → List Recording × Bool
  bump r why rows = bump_attempt r.file_id why c.max_attempts rows

  -- The body of the loop over NEW rows, by what the transfer gave.
  unfoldable pub settle_download :
      Recording → Fetched → List Recording × DownloadStats → List Recording × DownloadStats
  unfolding bump_attempt mark_skipped mark_downloaded
  settle_download r (fetch_failed why) (rows, st) =
      let (rows', dead) = bump r why rows in
      (rows', record st { attempted = st.attempted + 1; failed = st.failed + to_int dead })
  settle_download r (content path duration) (rows, st) =
      if not (duration == 0) && ltb duration c.min_duration_sec
      then (
        mark_skipped r.file_id "too_short" rows,
        record st { attempted = st.attempted + 1; skipped = st.skipped + 1 },
      )
      else (
        mark_downloaded r.file_id path duration rows,
        record st { attempted = st.attempted + 1; downloaded = st.downloaded + 1 },
      )

  unfoldable pub settle_transcribe :
      Recording → Heard → List Recording × TranscribeStats → List Recording × TranscribeStats
  unfolding bump_attempt mark_transcribed
  settle_transcribe r (hearing_failed why) (rows, st) =
      let (rows', dead) = bump r why rows in
      (rows', record st { attempted = st.attempted + 1; failed = st.failed + to_int dead })
  settle_transcribe r (text t language) (rows, st) = (
    mark_transcribed r.file_id t language rows,
    record st { attempted = st.attempted + 1; transcribed = st.transcribed + 1 },
  )

  -- The body of the loop of `score_pending`, by what the scorer gave.
  unfoldable pub settle_score :
      Recording → Judged → List Recording × ScoreStats → List Recording × ScoreStats
  unfolding bump_attempt mark_scored
  settle_score r (judging_failed why) (rows, st) =
      let (rows', dead) = bump r why rows in
      (rows', record st { attempted = st.attempted + 1; failed = st.failed + to_int dead })
  settle_score r (judgement json pct passed) (rows, st) = (
    mark_scored r.file_id json pct passed rows,
    record st { attempted = st.attempted + 1; scored = st.scored + 1 },
  )

module _ (c : Config) (w : World) where
  abbrev pub download_one :
      Recording → List Recording × DownloadStats → List Recording × DownloadStats
  download_one r acc = settle_download c r (w.fetch r) acc

  -- `download_pending`
  unfoldable pub download_pending : ℕ → List Recording → List Recording × DownloadStats
  unfolding settle_download claim sweep
  download_pending limit rows =
      sweep download_one (claim MeetingStatus.new limit rows)
        (rows, record { attempted = 0; downloaded = 0; skipped = 0; failed = 0 })

  abbrev pub check_text : Heard → Heard
  check_text (hearing_failed why) = hearing_failed why
  check_text (text t language) =
      if w.is_blank t then hearing_failed "empty transcript" else text t language

  -- What the `try` of `_one` ends with: a text that is not blank, or an error.
  unfoldable pub heard : Recording → Heard
  heard r =
      if file_exists w.exists r.audio_path
      then check_text (w.hear r)
      else hearing_failed "audio missing"

  -- `_one`
  abbrev pub transcribe_one :
      Recording → List Recording × TranscribeStats → List Recording × TranscribeStats
  transcribe_one r acc = settle_transcribe c r (heard r) acc

  -- `transcribe_pending`
  unfoldable pub transcribe_pending : ℕ → List Recording → List Recording × TranscribeStats
  unfolding settle_transcribe heard claim sweep
  transcribe_pending limit rows =
      sweep transcribe_one (claim MeetingStatus.downloaded limit rows)
        (rows, record { attempted = 0; transcribed = 0; failed = 0 })

  abbrev pub score_one : Recording → List Recording × ScoreStats → List Recording × ScoreStats
  score_one r acc = settle_score c r (w.judge r) acc

  -- `score_pending`
  unfoldable pub score_pending : ℕ → List Recording → List Recording × ScoreStats
  unfolding settle_score claim sweep
  score_pending limit rows =
      sweep score_one (claim MeetingStatus.transcribed limit rows)
        (rows, record { attempted = 0; scored = 0; failed = 0 })
