-- ===== src/Meetings/Invariant.antt =====
-- The invariant of the meeting pipeline, over every sequence of its operations.
use atamura_okk.Base.{
  ℕ, ◌+◌, ◌<◌, ◌≡◌, refl, subst, inl, inr, String, Bool, true, false, ◌&&◌, Option, none, some,
  List, [], ◌∷◌, arith, ◌==◌, select, mem, Bool-cases, and_true, if◌then◌else◌, is_some,
}
use atamura_okk.Base.Distinct.{select-IsDistinct}
use atamura_okk.Meetings.Recordings.{
  MeetingStatus, is_status, MeetingFile, Recording, refreshed, upsert_rows, upsert_new,
}
use atamura_okk.Meetings.Requeue.{
  is_present, file_exists, resume_status, resumed, reset_row, reset_failed, unscored, is_longer,
  unscore_row, reset_for_rescore,
}
use atamura_okk.Meetings.Passes.{
  Config, World, download_pending, transcribe_pending, score_pending, to_int,
}
use atamura_okk.Meetings.Drain.{push_pending, ingest_recordings, requeue_failed, rescore}
use atamura_okk.Meetings.Table.{ids, picked-All}
use atamura_okk.Meetings.Sweep.{Pays, sweep_lem}
use atamura_okk.Meetings.Sound.{SoundAs, IsSound, status-eq}
use atamura_okk.Meetings.Effects.{
  IsFine, download_pending_lem, transcribe_pending_lem, score_pending_lem, push_pending_lem,
}

-- An operation of the worker or of the operator, each run by one process, with what the world does
-- in it. In the world the empty text is blank.
pub data Operation (c : Config) (rows : List Recording) : List Recording → Type 0 where
  ingested :
      (now : ℕ) (fs : List MeetingFile) → Operation c rows (ingest_recordings now fs (rows, 0, 0)).0
  downloaded : (w : World) (limit : ℕ) → Operation c rows (download_pending c w limit rows).0
  transcribed :
      (w : World)
      → w.is_blank "" ≡ true
      → (limit : ℕ) → Operation c rows (transcribe_pending c w limit rows).0
  scored : (w : World) (limit : ℕ) → Operation c rows (score_pending c w limit rows).0
  pushed : (w : World) (limit : ℕ) → Operation c rows (push_pending w limit rows).0
  requeued : (exists : String → Bool) → Operation c rows (requeue_failed exists rows).0
  rescored : (all : Bool) (chars : ℕ) → Operation c rows (rescore all chars rows).0

pub data Reached (c : Config) : List Recording → Type 0 where
  created : Reached c []
  operated :
      {rows rows' : List Recording} → Reached c rows → Operation c rows rows' → Reached c rows'

module _ (c : Config) (tries : 0 < c.max_attempts) where
  -- A failed row has what the status needs that it resumes at.
  resumed-SoundAs :
      (exists : String → Bool) (r : Recording)
      → SoundAs c MeetingStatus.failed r
      → IsSound c (resumed (resume_status exists r) r)
  unfolding resume_status
  resumed-SoundAs exists r h = elim (Bool-cases (is_present r.transcript)) [
    | inl e ↦ rw e (e, tries, h.2)
    | inr e ↦ rw e (elim (Bool-cases (file_exists exists r.audio_path)) [
      | inl k ↦ rw k (file_exists-is_some exists r.audio_path k, tries, h.2)
      | inr k ↦ rw k (tt, tries, h.2)
    ])
  ]
    where
      file_exists-is_some :
          (exists : String → Bool) (p : Option String)
          → file_exists exists p ≡ true
          → is_some p ≡ true
      file_exists-is_some exists none k = cc
      file_exists-is_some exists (some p) k = refl

  reset_row-Pays :
      (exists : String → Bool) (r : Recording) (rows : List Recording)
      → is_status r.status MeetingStatus.failed ≡ true
      → IsSound c r
      → Pays (λ a. a) (λ _. 0) (IsSound c) (λ _. 0) r rows (reset_row exists r rows)
  unfolding reset_row
  reset_row-Pays exists r rows picked sound =
      let e = status-eq r.status MeetingStatus.failed picked in
      (
        resumed (resume_status exists r),
        λ d. refl,
        refl,
        resumed-SoundAs exists r (subst (λ s. SoundAs c s r) e sound),
        omega arith,
      )

  requeue_failed-IsFine :
      (exists : String → Bool) (rows : List Recording)
      → IsFine c rows
      → IsFine c (requeue_failed exists rows).0
  unfolding requeue_failed reset_failed
  requeue_failed-IsFine exists rows fine =
      let test = λ (r : Recording). is_status r.status MeetingStatus.failed in
      (sweep_lem (λ a. a) (λ _. 0) (IsSound c) (λ _. 0) test (reset_row exists)
        (λ r x row picked sound. reset_row-Pays exists r x picked sound) (select test rows) rows
        (select-IsDistinct (λ r. r.file_id) test rows fine.0) (picked-All test rows fine.0) fine).0

  unscore_row-Pays :
      (chars : Option ℕ) (r : Recording) (rows : List Recording)
      → (is_status r.status MeetingStatus.scored && is_longer chars r) ≡ true
      → IsSound c r
      → Pays (λ a. a) (λ _. 0) (IsSound c) (λ _. 0) r rows (unscore_row r rows)
  unfolding unscore_row
  unscore_row-Pays chars r rows picked sound =
      let e = status-eq r.status MeetingStatus.scored (and_true _ _ picked).0 in
      let now = subst (λ s. SoundAs c s r) e sound in
      (unscored, λ d. refl, refl, (now.0.0, tries, refl), omega arith)

  reset_for_rescore-IsFine :
      (chars : Option ℕ) (rows : List Recording)
      → IsFine c rows
      → IsFine c (reset_for_rescore chars rows).0
  unfolding reset_for_rescore
  reset_for_rescore-IsFine chars rows fine =
      let test = λ (r : Recording). is_status r.status MeetingStatus.scored && is_longer chars r in
      (sweep_lem (λ a. a) (λ _. 0) (IsSound c) (λ _. 0) test unscore_row
        (λ r x row picked sound. unscore_row-Pays chars r x picked sound) (select test rows) rows
        (select-IsDistinct (λ r. r.file_id) test rows fine.0) (picked-All test rows fine.0) fine).0

  -- The columns that a Disk scan writes are not those that soundness reads.
  refreshed-SoundAs :
      (f : MeetingFile) (r : Recording) (s : MeetingStatus)
      → SoundAs c s r
      → SoundAs c s (refreshed f r)
  refreshed-SoundAs f r MeetingStatus.new h = h
  refreshed-SoundAs f r MeetingStatus.downloaded h = h
  refreshed-SoundAs f r MeetingStatus.transcribed h = h
  refreshed-SoundAs f r MeetingStatus.scored h = h
  refreshed-SoundAs f r MeetingStatus.failed h = h
  refreshed-SoundAs f r MeetingStatus.skipped h = h

  not-mem-upsert :
      (now i : ℕ) (f : MeetingFile) (rows : List Recording)
      → mem i (ids rows) ≡ false
      → (f.file_id == i) ≡ false
      → mem i (ids (upsert_rows now f rows)) ≡ false
  unfolding upsert_rows
  not-mem-upsert now i f [] h e = ground arith
  not-mem-upsert now i f (r ∷ rs) h e = ground (arith, not-mem-upsert now i f rs)

  upsert_rows-IsFine :
      (now : ℕ) (f : MeetingFile) (rows : List Recording)
      → IsFine c rows
      → IsFine c (upsert_rows now f rows)
  unfolding upsert_rows
  upsert_rows-IsFine now f [] fine = ((refl, tt), ((tt, tries, refl), tt))
  upsert_rows-IsFine now f (r ∷ rs) fine = elim (Bool-cases (r.file_id == f.file_id)) [
    | inl e ↦ rw e (fine.0, (refreshed-SoundAs f r r.status fine.1.0, fine.1.1))
    | inr e ↦
        let rest = upsert_rows-IsFine now f rs (fine.0.1, fine.1.1) in
        rw e
          ((not-mem-upsert now r.file_id f rs fine.0.0 (ground arith), rest.0), (fine.1.0, rest.1))
  ]

  ingest_recordings-IsFine :
      (now : ℕ) (fs : List MeetingFile) (acc : List Recording × ℕ × ℕ)
      → IsFine c acc.0
      → IsFine c (ingest_recordings now fs acc).0
  unfolding ingest_recordings upsert_new
  ingest_recordings-IsFine now [] acc fine = fine
  ingest_recordings-IsFine now (f ∷ fs) (rows, scanned, fresh) fine =
      let (rows', was_new) = upsert_new now f rows in
      ingest_recordings-IsFine now fs (rows', scanned + 1, fresh + to_int was_new)
        (upsert_rows-IsFine now f rows fine)

  Operation-IsFine :
      {rows rows' : List Recording} → Operation c rows rows' → IsFine c rows → IsFine c rows'
  unfolding rescore
  Operation-IsFine {rows} (ingested now fs) fine = ingest_recordings-IsFine now fs (rows, 0, 0) fine
  Operation-IsFine {rows} (downloaded w limit) fine = (download_pending_lem c w limit rows fine).0
  Operation-IsFine {rows} (transcribed w blank limit) fine =
      (transcribe_pending_lem c w limit rows fine blank).0
  Operation-IsFine {rows} (scored w limit) fine = (score_pending_lem c w limit rows fine).0
  Operation-IsFine {rows} (pushed w limit) fine = (push_pending_lem c w limit rows fine).0
  Operation-IsFine {rows} (requeued exists) fine = requeue_failed-IsFine exists rows fine
  Operation-IsFine {rows} (rescored all chars) fine =
      reset_for_rescore-IsFine (if all then none else some chars) rows fine

  -- In every table of recordings that operations lead to, with at least one attempt configured: the
  -- file ids are distinct; a downloaded row has its audio, a transcribed or scored one a transcript
  -- that is not empty, and a scored one its score; a row is failed exactly if its attempts are used
  -- up; and only scored rows are marked as pushed.
  pub Reached-IsFine : {rows : List Recording} → Reached c rows → IsFine c rows
  Reached-IsFine created = (tt, tt)
  Reached-IsFine (operated r o) = Operation-IsFine o (Reached-IsFine r)
