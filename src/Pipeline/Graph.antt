-- ===== src/Pipeline/Graph.antt =====
-- The life cycle of a call (AtamuraOKK/db/models/enums.py and the stages' docstrings) as a diagram
-- of statuses, and the branches that the pipeline never takes.
use atamura_okk.Base.{
  ℕ, ◌≡◌, ◌≢◌, refl, subst, inl, inr, ◌⊎◌, Bool, true, false, Option, some, arith, Option-cases,
}
use atamura_okk.Store.{CallStatus, Call, get, has_transcript, claimed}
use atamura_okk.Settings.{Settings}
use atamura_okk.Stages.Transcribe.{is_present}
use atamura_okk.Stages.Tasks.{without_audio, start_transcribe}
use atamura_okk.Pipeline.Rows.{RowStep, Evolves, row_updates, premise}
use atamura_okk.Pipeline.System.{System, Step, Reach}
use atamura_okk.Pipeline.Tracks.Steps.{flags, Step-Moves, Reach-HasKeys}
use atamura_okk.Pipeline.Tracks.Settling.{claimed_facts}
use atamura_okk.Pipeline.Invariant.{IsOk, IsRowOk, Reach-IsSound}

-- The arrows of the diagram.
abbrev pub has_arrow : CallStatus → CallStatus → Bool
has_arrow CallStatus.new CallStatus.downloading = true
has_arrow CallStatus.new CallStatus.skipped = true
has_arrow CallStatus.skipped CallStatus.new = true
has_arrow CallStatus.downloading CallStatus.new = true
has_arrow CallStatus.downloading CallStatus.downloaded = true
has_arrow CallStatus.downloading CallStatus.failed = true
has_arrow CallStatus.downloaded CallStatus.transcribing = true
has_arrow CallStatus.transcribing CallStatus.downloaded = true
has_arrow CallStatus.transcribing CallStatus.transcribed = true
has_arrow CallStatus.transcribing CallStatus.pending_kk = true
has_arrow CallStatus.transcribing CallStatus.failed = true
has_arrow CallStatus.pending_kk CallStatus.downloaded = true
has_arrow CallStatus.transcribed CallStatus.scoring = true
has_arrow CallStatus.scoring CallStatus.transcribed = true
has_arrow CallStatus.scoring CallStatus.scored = true
has_arrow CallStatus.scoring CallStatus.failed = true
has_arrow CallStatus.scored CallStatus.transcribed = true
has_arrow CallStatus.failed CallStatus.new = true
has_arrow CallStatus.failed CallStatus.downloaded = true
has_arrow CallStatus.failed CallStatus.transcribed = true
has_arrow _ _ = false

module _ (s : Settings) where
  -- An arrow, or no change.
  abbrev pub Moved : CallStatus → CallStatus → Type 0
  Moved a b = (has_arrow a b ≡ true) ⊎ (a ≡ b)

  RowStep-Moved : {t t' : Bool} {c c' : Call} → RowStep s t t' c c' → Moved c.status c'.status
  unfolding row_updates
  RowStep-Moved (RowStep.same e) = inr refl
  RowStep-Moved r = ground (arith, premise r)

  evolved_status :
      {t t' : Bool} {c : Call} {o' : Option Call}
      → Evolves s t t' (some c) o'
      → (c' : Call) × (o' ≡ some c') × Moved c.status c'.status
  evolved_status (Evolves.row {c' = c'} st) = (c', refl, RowStep-Moved st)

  -- As long as no requalification pass flushes a call that has changed since the pass read it, one step
  -- of the pipeline, from a reachable state, takes the status of each call along one arrow of the
  -- diagram or leaves it.
  pub Step-Moved :
      {sys sys' : System}
      → Reach s sys
      → Step s sys sys'
      → (j : ℕ) {c : Call} → get j sys.db.calls ≡ some c
      → (c' : Call) × (get j sys'.db.calls ≡ some c') × Moved c.status c'.status
  Step-Moved r st j found = evolved_status (rw found at ((Step-Moves s st (Reach-HasKeys s r)).1 j))

  pub row_ok :
      {sys : System}
      → Reach s sys
      → (j : ℕ) {c : Call} → get j sys.db.calls ≡ some c
      → IsRowOk (flags sys.db j) c
  row_ok {sys} r j found = subst (IsOk (flags sys.db j)) found (Reach-IsSound s r j)

  -- In a state that is reachable as long as no requalification pass flushes a call that has changed
  -- since the pass read it, a delivered transcription task with a valid claim always finds its
  -- recording: the branch `no audio_object_key` is dead.
  pub Reach-has_audio :
      {sys : System} → Reach s sys → (i : ℕ) → start_transcribe i sys.db ≢ some (without_audio i)
  unfolding start_transcribe
  Reach-has_audio {sys} r i h = elim (Option-cases (claimed CallStatus.transcribing i sys.db)) [
    | inl e ↦ cc (h, e)
    | inr (c, e) ↦
        let (found, in_status) = claimed_facts CallStatus.transcribing i sys.db e in
        let stored : is_present c.audio_object_key ≡ true =
          (row_ok r i found).audio_stored (rw in_status refl) in
        let branch = rw (e, start_transcribe) at h in ground arith
  ]

  -- In a state that is reachable as long as no requalification pass flushes a call that has changed
  -- since the pass read it, every call that is claimed for scoring has a transcript: the branch
  -- `no transcript` is dead.
  pub Reach-has_text :
      {sys : System}
      → Reach s sys
      → (i : ℕ) {c : Call} → claimed CallStatus.scoring i sys.db ≡ some c
      → has_transcript i sys.db.transcripts ≡ true
  Reach-has_text {sys} r i h =
      let (found, in_status) = claimed_facts CallStatus.scoring i sys.db h in
      (row_ok r i found).text_stored (rw in_status refl)
