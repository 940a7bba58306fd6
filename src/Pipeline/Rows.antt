-- ===== src/Pipeline/Rows.antt =====
-- How one row of `calls` can change in one transaction, with the flag that its transcript exists.
use Prim.Native.Char.{Char}
use atamura_okk.Base.{
  ℕ, ◌<◌, ◌≡◌, refl, ◌⊎◌, inl, inr, String, Bool, true, false, Option, none, some,
}
use atamura_okk.Store.{CallStatus, Call}
use atamura_okk.Settings.{Settings}
use atamura_okk.Dispatch.Claim.{claim_row, reclaim_row}
use atamura_okk.Ingestion.Scope.{Qualification, no_stats, apply_scope, stamp, first_call}
use atamura_okk.Ingestion.Upsert.{CallFields, inserted, refreshed}
use atamura_okk.Ops.Retry.{route, route_status}
use atamura_okk.Ops.Requeue.{requeued_row}
use atamura_okk.Stages.Transcribe.{Transcribed, fail_without_audio, settle_row}
use atamura_okk.Stages.Score.{fail_without_transcript, fail_row, scored_row}
use atamura_okk.Stages.Batch.{released_row, heartbeat_row}
use atamura_okk.Stages.Tasks.{Fetched, download_row}

-- The ready status of a stage and its in-flight status.
pub data IsStage : CallStatus → CallStatus → Type 0 where
  download : IsStage CallStatus.new CallStatus.downloading
  transcribe : IsStage CallStatus.downloaded CallStatus.transcribing
  score : IsStage CallStatus.transcribed CallStatus.scoring

-- `t` and `t'` say whether the call has a transcript before and after.
pub data RowStep (s : Settings) (t t' : Bool) (c : Call) : Call → Type 0 where
  same : t' ≡ t → RowStep s t t' c c
  claim :
      {src dst : CallStatus} (now : ℕ)
      → IsStage src dst
      → c.status ≡ src
      → c.analyzable ≡ true
      → t' ≡ t
      → RowStep s t t' c (claim_row dst now c)
  reclaim :
      {src dst : CallStatus}
      → IsStage src dst
      → c.status ≡ dst
      → t' ≡ t
      → RowStep s t t' c (reclaim_row src c)
  downloaded :
      (is_alnum : Char → Bool) (fetched : Fetched)
      → c.status ≡ CallStatus.downloading
      → t' ≡ t
      → RowStep s t t' c (download_row is_alnum fetched c)
  no_audio : c.status ≡ CallStatus.transcribing → t' ≡ t → RowStep s t t' c (fail_without_audio c)
  transcribed :
      (handles_kazakh : Bool) (outcome : Transcribed)
      → c.status ≡ CallStatus.transcribing
      → (t ≡ true → t' ≡ true)
      → ((settle_row handles_kazakh outcome c).status ≡ CallStatus.transcribed → t' ≡ true)
      → RowStep s t t' c (settle_row handles_kazakh outcome c)
  no_transcript :
      c.status ≡ CallStatus.scoring
      → t ≡ false
      → t' ≡ t
      → RowStep s t t' c (fail_without_transcript c)
  scored : c.status ≡ CallStatus.scoring → t' ≡ t → RowStep s t t' c (scored_row c)
  score_failed :
      (e : String) → c.status ≡ CallStatus.scoring → t' ≡ t → RowStep s t t' c (fail_row e c)
  released : c.status ≡ CallStatus.scoring → t' ≡ t → RowStep s t t' c (released_row c)
  heartbeat :
      (now : ℕ) → c.status ≡ CallStatus.scoring → t' ≡ t → RowStep s t t' c (heartbeat_row now c)
  requeued :
      c.status ≡ CallStatus.failed
      → c.attempts < s.max_retries
      → t' ≡ t
      → RowStep s t t' c (record c { status = route_status (route t c); error = none })
  unparked :
      c.status ≡ CallStatus.pending_kk
      → t' ≡ t
      → RowStep s t t' c (requeued_row CallStatus.downloaded c)
  relabel :
      c.status ≡ CallStatus.scored
      → t' ≡ t
      → RowStep s t t' c (requeued_row CallStatus.transcribed c)
  scoped :
      (q : Qualification) (category : Option String) (c0 : Call)
      → ((b : Bool) × (c0 ≡ first_call b c)) ⊎ (c0 ≡ c)
      → t' ≡ t
      → RowStep s t t' c (apply_scope s q (stamp q category c0) no_stats).0
  reingested : (f : CallFields) → t' ≡ t → RowStep s t t' c (refreshed f c)
  attributed : (manager : ℕ) → t' ≡ t → RowStep s t t' c (record c { manager_id = some manager })

-- The row under one primary key, before and after.
pub data Evolves (s : Settings) (t t' : Bool) : Option Call → Option Call → Type 0 where
  absent : t' ≡ t → Evolves s t t' none none
  appears : (now i : ℕ) (f : CallFields) → t' ≡ t → Evolves s t t' none (some (inserted now i f))
  row : {c c' : Call} → RowStep s t t' c c' → Evolves s t t' (some c) (some c')

-- The premises of a step, for proofs that treat all steps alike.
abbrev pub StagePair : CallStatus → CallStatus → Type 0
StagePair src dst =
    (src ≡ CallStatus.new) × (dst ≡ CallStatus.downloading)
    ⊎ ((src ≡ CallStatus.downloaded) × (dst ≡ CallStatus.transcribing)
        ⊎ (src ≡ CallStatus.transcribed) × (dst ≡ CallStatus.scoring))

pub stage_pair : {src dst : CallStatus} → IsStage src dst → StagePair src dst
stage_pair IsStage.download = inl (refl, refl)
stage_pair IsStage.transcribe = inr (inl (refl, refl))
stage_pair IsStage.score = inr (inr (refl, refl))

module _ {s : Settings} {t t' : Bool} {c : Call} where
  abbrev pub Premise : {c' : Call} → RowStep s t t' c c' → Type 0
  Premise (RowStep.same e) = t' ≡ t
  Premise (RowStep.claim {src = a} {dst = b} now st p q e) =
      StagePair a b × (c.status ≡ a) × (c.analyzable ≡ true) × (t' ≡ t)
  Premise (RowStep.reclaim {src = a} {dst = b} st p e) = StagePair a b × (c.status ≡ b) × (t' ≡ t)
  Premise (RowStep.downloaded is_alnum fetched p e) = (c.status ≡ CallStatus.downloading) × (t' ≡ t)
  Premise (RowStep.no_audio p e) = (c.status ≡ CallStatus.transcribing) × (t' ≡ t)
  Premise (RowStep.transcribed hk o p q e) =
      (c.status ≡ CallStatus.transcribing)
      × (t ≡ true → t' ≡ true)
      × ((settle_row hk o c).status ≡ CallStatus.transcribed → t' ≡ true)
  Premise (RowStep.no_transcript p q e) = (c.status ≡ CallStatus.scoring) × (t ≡ false) × (t' ≡ t)
  Premise (RowStep.scored p e) = (c.status ≡ CallStatus.scoring) × (t' ≡ t)
  Premise (RowStep.score_failed x p e) = (c.status ≡ CallStatus.scoring) × (t' ≡ t)
  Premise (RowStep.released p e) = (c.status ≡ CallStatus.scoring) × (t' ≡ t)
  Premise (RowStep.heartbeat now p e) = (c.status ≡ CallStatus.scoring) × (t' ≡ t)
  Premise (RowStep.requeued p q e) =
      (c.status ≡ CallStatus.failed) × (c.attempts < s.max_retries) × (t' ≡ t)
  Premise (RowStep.unparked p e) = (c.status ≡ CallStatus.pending_kk) × (t' ≡ t)
  Premise (RowStep.relabel p e) = (c.status ≡ CallStatus.scored) × (t' ≡ t)
  Premise (RowStep.scoped q category c0 p e) =
      (((b : Bool) × (c0 ≡ first_call b c)) ⊎ (c0 ≡ c)) × (t' ≡ t)
  Premise (RowStep.reingested f e) = t' ≡ t
  Premise (RowStep.attributed m e) = t' ≡ t

  pub premise : {c' : Call} (r : RowStep s t t' c c') → Premise r
  premise (RowStep.same e) = e
  premise (RowStep.claim now st p q e) = (stage_pair st, p, q, e)
  premise (RowStep.reclaim st p e) = (stage_pair st, p, e)
  premise (RowStep.downloaded is_alnum fetched p e) = (p, e)
  premise (RowStep.no_audio p e) = (p, e)
  premise (RowStep.transcribed hk o p q e) = (p, q, e)
  premise (RowStep.no_transcript p q e) = (p, q, e)
  premise (RowStep.scored p e) = (p, e)
  premise (RowStep.score_failed x p e) = (p, e)
  premise (RowStep.released p e) = (p, e)
  premise (RowStep.heartbeat now p e) = (p, e)
  premise (RowStep.requeued p q e) = (p, q, e)
  premise (RowStep.unparked p e) = (p, e)
  premise (RowStep.relabel p e) = (p, e)
  premise (RowStep.scoped q category c0 p e) = (p, e)
  premise (RowStep.reingested f e) = e
  premise (RowStep.attributed m e) = e

-- What a proof about row steps computes with.
unfoldable pub row_updates : Unit {0}
unfolding claim_row reclaim_row download_row fail_without_audio settle_row fail_without_transcript
    scored_row fail_row route apply_scope stamp inserted refreshed
row_updates = tt
