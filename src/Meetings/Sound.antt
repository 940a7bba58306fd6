-- ===== src/Meetings/Sound.antt =====
-- When a recording's row is consistent, and that each write of a stage to a claimed row keeps it so
-- and costs at least what it gains.
use atamura_okk.Base.{
  ℕ, ◌+◌, ◌≤◌, ◌<◌, ◌≡◌, refl, ap, subst, ◌∙◌, inl, inr, String, Bool, true, false, ◌&&◌, not,
  Option, some, List, arith, leb, ltb, ◌==◌, is_some, if◌then◌else◌, Bool-cases,
}
use atamura_okk.Meetings.Recordings.{MeetingStatus, is_status, Recording, bumped, bump_attempt}
use atamura_okk.Meetings.Requeue.{is_present}
use atamura_okk.Meetings.Passes.{
  Config, Fetched, content, fetch_failed, Heard, text, hearing_failed, Judged, judgement,
  judging_failed, DownloadStats, TranscribeStats, ScoreStats, bump, settle_download,
  settle_transcribe, settle_score,
}
use atamura_okk.Meetings.Table.{IsRowOf}
use atamura_okk.Meetings.Sweep.{Pays}

-- What each status has.
abbrev pub HasArtifacts : MeetingStatus → Recording → Type 0
HasArtifacts MeetingStatus.downloaded r = is_some r.audio_path ≡ true
HasArtifacts MeetingStatus.transcribed r = is_present r.transcript ≡ true
HasArtifacts MeetingStatus.scored r =
    (is_present r.transcript ≡ true)
    × (is_some r.score_json ≡ true)
    × (is_some r.score_pct ≡ true)
    × (is_some r.passed ≡ true)
HasArtifacts _ r = Unit {0}

-- A row is failed exactly if its attempts are used up.
abbrev pub IsCounted : Config → MeetingStatus → ℕ → Type 0
IsCounted c MeetingStatus.failed n = c.max_attempts ≤ n
IsCounted c _ n = n < c.max_attempts

-- Only a scored row can be in Postgres by its marker.
abbrev pub IsMarked : MeetingStatus → Option ℕ → Type 0
IsMarked MeetingStatus.scored p = Unit {0}
IsMarked _ p = is_some p ≡ false

abbrev pub SoundAs : Config → MeetingStatus → Recording → Type 0
SoundAs c s r = HasArtifacts s r × IsCounted c s r.attempts × IsMarked s r.pushed_at

abbrev pub IsSound : Config → Recording → Type 0
IsSound c r = SoundAs c r.status r

-- The stages that a status has before it.
abbrev pub work : MeetingStatus → ℕ
work MeetingStatus.new = 3
work MeetingStatus.downloaded = 2
work MeetingStatus.transcribed = 1
work _ = 0

abbrev pub work_of : Recording → ℕ
work_of r = work r.status

-- A text that counts as a transcript.
abbrev pub IsText : Heard → Type 0
IsText (hearing_failed why) = Unit {0}
IsText (text t language) = is_present (some t) ≡ true

pub status-eq : (s t : MeetingStatus) → is_status s t ≡ true → s ≡ t
status-eq MeetingStatus.new MeetingStatus.new h = refl
status-eq MeetingStatus.downloaded MeetingStatus.downloaded h = refl
status-eq MeetingStatus.transcribed MeetingStatus.transcribed h = refl
status-eq MeetingStatus.scored MeetingStatus.scored h = refl
status-eq MeetingStatus.failed MeetingStatus.failed h = refl
status-eq MeetingStatus.skipped MeetingStatus.skipped h = refl
status-eq s t h = cc

module _ (c : Config) where
  -- A row that waits and has failed once more.
  bumped-SoundAs :
      (why : String) (s : MeetingStatus) (r : Recording) (dead : Bool)
      → leb c.max_attempts (r.attempts + 1) ≡ dead
      → 0 < work s
      → SoundAs c s r
      → SoundAs c (if dead then MeetingStatus.failed else s) (bumped (r.attempts + 1) why dead r)
  bumped-SoundAs why MeetingStatus.new r true e h k = (tt, ground arith, k.2)
  bumped-SoundAs why MeetingStatus.new r false e h k = (k.0, ground arith, k.2)
  bumped-SoundAs why MeetingStatus.downloaded r true e h k = (tt, ground arith, k.2)
  bumped-SoundAs why MeetingStatus.downloaded r false e h k = (k.0, ground arith, k.2)
  bumped-SoundAs why MeetingStatus.transcribed r true e h k = (tt, ground arith, k.2)
  bumped-SoundAs why MeetingStatus.transcribed r false e h k = (k.0, ground arith, k.2)
  bumped-SoundAs why MeetingStatus.scored r dead e h k = absurd (omega arith)
  bumped-SoundAs why MeetingStatus.failed r dead e h k = absurd (omega arith)
  bumped-SoundAs why MeetingStatus.skipped r dead e h k = absurd (omega arith)

  work-bumped :
      (s : MeetingStatus) (dead : Bool) → work (if dead then MeetingStatus.failed else s) ≤ work s
  work-bumped s true = omega arith
  work-bumped s false = omega arith

  module _ {X : Type 0} (table : X → List Recording) (gained : X → ℕ) where
    -- The `except` of each loop pays for itself.
    bump-Pays :
        (r : Recording) (why : String) (x y : X)
        → IsRowOf (table x) r
        → 0 < work r.status
        → IsSound c r
        → table y ≡ (bump c r why (table x)).0
        → gained y ≡ gained x
        → Pays table gained (IsSound c) work_of r x y
    unfolding bump_attempt
    bump-Pays r why x y row waits sound eq same =
        let dead = leb c.max_attempts (r.attempts + 1) in
        (
          bumped (r.attempts + 1) why dead,
          λ d. refl,
          eq ∙ rw row refl,
          bumped-SoundAs why r.status r dead refl waits sound,
          omega (arith, same, work-bumped r.status dead),
        )

  waits_of : (r : Recording) {s : MeetingStatus} → r.status ≡ s → 0 < work s → 0 < work r.status
  waits_of r e h = rw e h

  module _ (r : Recording) (sound : IsSound c r) where
    pub settle_download-Pays :
        (o : Fetched) (x : List Recording × DownloadStats)
        → IsRowOf x.0 r
        → r.status ≡ MeetingStatus.new
        → Pays (λ a. a.0) (λ a. a.1.downloaded) (IsSound c) work_of r x (settle_download c r o x)
    unfolding settle_download
    settle_download-Pays (fetch_failed why) x row e =
        bump-Pays (λ a. a.0) (λ a. a.1.downloaded) r why x
          (settle_download c r (fetch_failed why) x) row (waits_of r e (omega arith)) sound refl
          refl
    settle_download-Pays (content path duration) x row e =
        let now = subst (λ s. SoundAs c s r) e sound in
        let left = ap work e in
        elim (Bool-cases (not (duration == 0) && ltb duration c.min_duration_sec)) [
          | inl short ↦ rw short (_, λ d. refl, refl, (tt, now.1, now.2), omega arith)
          | inr long ↦ rw long (_, λ d. refl, refl, (refl, now.1, now.2), omega (arith, left))
        ]

    pub settle_transcribe-Pays :
        (o : Heard) (x : List Recording × TranscribeStats)
        → IsRowOf x.0 r
        → r.status ≡ MeetingStatus.downloaded
        → IsText o
        → Pays (λ a. a.0) (λ a. a.1.transcribed) (IsSound c) work_of r x (settle_transcribe c r o x)
    unfolding settle_transcribe
    settle_transcribe-Pays (hearing_failed why) x row e t =
        bump-Pays (λ a. a.0) (λ a. a.1.transcribed) r why x
          (settle_transcribe c r (hearing_failed why) x) row (waits_of r e (omega arith)) sound refl
          refl
    settle_transcribe-Pays (text t language) x row e present =
        let now = subst (λ s. SoundAs c s r) e sound in
        let left = ap work e in (_, λ d. refl, refl, (present, now.1, now.2), omega (arith, left))

    pub settle_score-Pays :
        (o : Judged) (x : List Recording × ScoreStats)
        → IsRowOf x.0 r
        → r.status ≡ MeetingStatus.transcribed
        → Pays (λ a. a.0) (λ a. a.1.scored) (IsSound c) work_of r x (settle_score c r o x)
    unfolding settle_score
    settle_score-Pays (judging_failed why) x row e =
        bump-Pays (λ a. a.0) (λ a. a.1.scored) r why x (settle_score c r (judging_failed why) x) row
          (waits_of r e (omega arith)) sound refl refl
    settle_score-Pays (judgement json pct passed) x row e =
        let now = subst (λ s. SoundAs c s r) e sound in
        let left = ap work e in
        (_, λ d. refl, refl, ((now.0, refl, refl, refl), now.1, tt), omega (arith, left))
