-- ===== src/Meetings/Effects.antt =====
-- The stages of a pass keep the rows of the meeting pipeline consistent, and what they move forward
-- is paid by the work that is left.
use atamura_okk.Base.{
  ℕ, ◌+◌, ◌≤◌, ◌≡◌, refl, sym, subst, inl, inr, Bool, true, ◌&&◌, not, List, arith, All, All-imp,
  All-select, select, sweep, Bool-cases, and_true, str_eq, eq_iff, is_some,
}
use atamura_okk.Base.Distinct.{select-IsDistinct}
use atamura_okk.Meetings.Recordings.{MeetingStatus, is_status, Recording, claim, older}
use atamura_okk.Meetings.Requeue.{file_exists, claim_unpushed, pushed, mark_pushed}
use atamura_okk.Meetings.Passes.{
  Config, World, text, hearing_failed, heard, Heard, check_text, download_one, download_pending,
  transcribe_one, transcribe_pending, score_one, score_pending,
}
use atamura_okk.Meetings.Drain.{mark_row, push_pending}
use atamura_okk.Meetings.Table.{HasKeys, IsRowOf, IsPicked, claimed-All, claimed-HasKeys, total}
use atamura_okk.Meetings.Sweep.{Pays, sweep_lem}
use atamura_okk.Meetings.Sound.{
  SoundAs, IsSound, work_of, IsText, status-eq, settle_download-Pays, settle_transcribe-Pays,
  settle_score-Pays,
}

module _ (c : Config) where
  -- Distinct file ids, and consistent rows.
  abbrev pub IsFine : List Recording → Type 0
  IsFine rows = HasKeys rows × All (IsSound c) rows

  abbrev pub left : List Recording → ℕ
  left rows = total work_of rows

  check_text-IsText : (w : World) → w.is_blank "" ≡ true → (h : Heard) → IsText (check_text c w h)
  check_text-IsText w blank (hearing_failed why) = tt
  check_text-IsText w blank (text t language) = elim (Bool-cases (w.is_blank t)) [
    | inl e ↦ rw e tt
    | inr e ↦ rw e (elim (Bool-cases (str_eq t "")) [
      | inl empty ↦ let same : t ≡ "" = (eq_iff t "").0 empty in absurd (cc (rw same at e))
      | inr full ↦ rw full refl
    ])
  ]

  heard-IsText : (w : World) → w.is_blank "" ≡ true → (r : Recording) → IsText (heard c w r)
  unfolding heard
  heard-IsText w blank r = elim (Bool-cases (file_exists w.exists r.audio_path)) [
    | inl e ↦ rw e (check_text-IsText w blank (w.hear r))
    | inr e ↦ rw e tt
  ]

  module _ (w : World) (limit : ℕ) (rows : List Recording) (fine : IsFine rows) where
    pub download_pending_lem :
        IsFine (download_pending c w limit rows).0
        × (left (download_pending c w limit rows).0 + (download_pending c w limit rows).1.downloaded
            ≤ left rows)
    unfolding download_pending
    download_pending_lem =
        let test = λ (r : Recording). is_status r.status MeetingStatus.new in
        let out =
          sweep_lem (λ a. a.0) (λ a. a.1.downloaded) (IsSound c) work_of test (download_one c w)
            (λ r x row picked sound.
              settle_download-Pays c r sound (w.fetch r) x row
                (status-eq r.status MeetingStatus.new picked))
            (claim MeetingStatus.new limit rows)
            (rows, record { attempted = 0; downloaded = 0; skipped = 0; failed = 0 })
            (claimed-HasKeys test older limit rows fine.0)
            (claimed-All test older limit rows fine.0) fine in
        (out.0, omega (arith, out.1))

    pub transcribe_pending_lem :
        w.is_blank "" ≡ true
        → IsFine (transcribe_pending c w limit rows).0
          × (left (transcribe_pending c w limit rows).0
                + (transcribe_pending c w limit rows).1.transcribed
              ≤ left rows)
    unfolding transcribe_pending
    transcribe_pending_lem blank =
        let test = λ (r : Recording). is_status r.status MeetingStatus.downloaded in
        let out =
          sweep_lem (λ a. a.0) (λ a. a.1.transcribed) (IsSound c) work_of test (transcribe_one c w)
            (λ r x row picked sound.
              settle_transcribe-Pays c r sound (heard c w r) x row
                (status-eq r.status MeetingStatus.downloaded picked) (heard-IsText w blank r))
            (claim MeetingStatus.downloaded limit rows)
            (rows, record { attempted = 0; transcribed = 0; failed = 0 })
            (claimed-HasKeys test older limit rows fine.0)
            (claimed-All test older limit rows fine.0) fine in
        (out.0, omega (arith, out.1))

    pub score_pending_lem :
        IsFine (score_pending c w limit rows).0
        × (left (score_pending c w limit rows).0 + (score_pending c w limit rows).1.scored
            ≤ left rows)
    unfolding score_pending
    score_pending_lem =
        let test = λ (r : Recording). is_status r.status MeetingStatus.transcribed in
        let out =
          sweep_lem (λ a. a.0) (λ a. a.1.scored) (IsSound c) work_of test (score_one c w)
            (λ r x row picked sound.
              settle_score-Pays c r sound (w.judge r) x row
                (status-eq r.status MeetingStatus.transcribed picked))
            (claim MeetingStatus.transcribed limit rows)
            (rows, record { attempted = 0; scored = 0; failed = 0 })
            (claimed-HasKeys test older limit rows fine.0)
            (claimed-All test older limit rows fine.0) fine in
        (out.0, omega (arith, out.1))

    mark_row_lem :
        (r : Recording) (rows : List Recording)
        → IsRowOf rows r
        → (is_status r.status MeetingStatus.scored && not (is_some r.pushed_at)) ≡ true
        → IsSound c r
        → Pays (λ a. a) (λ _. 0) (IsSound c) work_of r rows (mark_row w.now r rows)
    unfolding mark_row mark_pushed
    mark_row_lem r rows row picked sound =
        let e = status-eq r.status MeetingStatus.scored (and_true _ _ picked).0 in
        let now = subst (λ s. SoundAs c s r) e sound in
        (
          pushed w.now,
          λ d. refl,
          refl,
          subst (λ s. SoundAs c s (pushed w.now r)) (sym e) (now.0, now.1, tt),
          omega arith,
        )

    pub push_pending_lem :
        IsFine (push_pending w limit rows).0 × (left (push_pending w limit rows).0 ≤ left rows)
    unfolding push_pending
    push_pending_lem = elim (Bool-cases w.postgres) [
      | inl e ↦ rw e (out.0, omega (arith, out.1))
      | inr e ↦ rw e (fine, omega arith)
    ]
      where
        test : Recording → Bool
        test r = is_status r.status MeetingStatus.scored && not (is_some r.pushed_at)

        claimed : List Recording
        claimed = claim_unpushed limit rows

        out :
            IsFine (sweep (mark_row w.now) (select w.payload claimed) rows)
            × (left (sweep (mark_row w.now) (select w.payload claimed) rows) + 0 ≤ left rows + 0)
        out =
            sweep_lem (λ a. a) (λ _. 0) (IsSound c) work_of test (mark_row w.now) mark_row_lem
              (select w.payload claimed) rows
              (select-IsDistinct (λ r. r.file_id) w.payload claimed
                (claimed-HasKeys test older limit rows fine.0))
              (All-imp (λ r. IsPicked test rows r × (w.payload r ≡ true)) (IsPicked test rows)
                (λ r p. p.0) (select w.payload claimed)
                (All-select (IsPicked test rows) w.payload claimed
                  (claimed-All test older limit rows fine.0)))
              fine
