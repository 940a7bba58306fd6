-- ===== src/Pipeline/Tracks/Settling.antt =====
-- The transactions that settle one claimed call: tasks and batch results.
use Prim.Native.Char.{Char}
use atamura_okk.Base.{
  ℕ, ◌≡◌, refl, subst, ◌∙◌, inl, inr, Bool, true, false, Option, none, some, List, arith, ◌==◌,
  Bool-cases, Option-cases, String, if◌then◌else◌,
}
use atamura_okk.Store.{
  CallStatus, Call, Transcript, Db, status_eq, get, put, has_transcript, get_transcript, claimed,
}
use atamura_okk.Store.Laws.{get-id, has-upsert, has-put}
use atamura_okk.Settings.{Settings}
use atamura_okk.Scoring.CallScore.{CallScore}
use atamura_okk.Scoring.Assemble.{Assembled, payload, omitted}
use atamura_okk.Stages.Transcribe
use atamura_okk.Stages.Transcribe.{
  Transcribed, result, transcription_error, settle_row, settle_transcripts, fail_without_audio,
}
use atamura_okk.Stages.Score
use atamura_okk.Stages.Score.{
  Assessed, scoring_error, assessment, Env, fail_row, scored_row, fail_call,
  fail_without_transcript, settle_scored, settle_assembled,
}
use atamura_okk.Stages.Batch
use atamura_okk.Stages.Batch.{released_row}
use atamura_okk.Stages.Tasks.{
  Fetched, stored, fetch_error, download_row, finish_download, finish_transcribe,
  finish_without_audio, start_score, finish_score,
}
use atamura_okk.Pipeline.Rows
use atamura_okk.Pipeline.Rows.{RowStep}
use atamura_okk.Pipeline.Tracks.Writes.{Tracks, Tracks-refl, put-Tracks}
use atamura_okk.Pipeline.Tracks.Claims.{status_eq→eq}

abbrev flags : Db → ℕ → Bool
flags db j = has_transcript j db.transcripts

-- The claimed row is the call's row, in the status that was asked for.
pub claimed_facts :
    (st : CallStatus) (i : ℕ) (db : Db) {c : Call}
    → claimed st i db ≡ some c
    → (get i db.calls ≡ some c) × (c.status ≡ st)
unfolding claimed
claimed_facts st i db h = at_row (get i db.calls) h
  where
    at_row :
        {c : Call} (o : Option Call)
        → elim o as (λ _. Option Call) [
          | none ↦ none
          | some d ↦ if status_eq d.status st then some d else none
        ]
          ≡ some c
        → (o ≡ some c) × (c.status ≡ st)
    at_row none e = cc
    at_row (some d) e = elim (Bool-cases (status_eq d.status st)) [
      | inl same_status ↦ ground (arith, status_eq→eq d.status st same_status)
      | inr other ↦ cc (e, other)
    ]

module _ (s : Settings) (db : Db) where
  -- One claimed row is settled, and no transcript changes hands.
  settle_one :
      (i : ℕ) (st : CallStatus) (f : Call → Call) (c : Call)
      → claimed st i db ≡ some c
      → (f c).id ≡ c.id
      → (c.status ≡ st → RowStep s (flags db i) (flags db i) c (f c))
      → Tracks s (flags db) (flags db) db.calls (put (f c) db.calls)
  settle_one i st f c e keeps step =
      let (found, in_status) = claimed_facts st i db e in
      put-Tracks s (flags db) (flags db) i db.calls c (f c) found (keeps ∙ get-id i db.calls found)
        (step in_status) (λ j other. refl)

  abbrev Settles : Db → Type 0
  Settles db' = Tracks s (flags db) (flags db') db.calls db'.calls

  download_row_id :
      (is_alnum : Char → Bool) (fetched : Fetched) (c : Call)
      → (download_row is_alnum fetched c).id ≡ c.id
  unfolding download_row
  download_row_id is_alnum stored c = refl
  download_row_id is_alnum (fetch_error e) c = refl

  pub download-Tracks :
      (is_alnum : Char → Bool) (i : ℕ) (fetched : Fetched)
      → Settles (finish_download is_alnum i fetched db).0
  unfolding finish_download
  download-Tracks is_alnum i fetched = elim (Option-cases (claimed CallStatus.downloading i db)) [
    | inl e ↦ rw (e, finish_download) (Tracks-refl s (flags db) db.calls)
    | inr (c, e) ↦
        rw (e, finish_download)
          (settle_one i CallStatus.downloading (download_row is_alnum fetched) c e
            (download_row_id is_alnum fetched c) (λ h. Rows.downloaded is_alnum fetched h refl))
  ]

  pub no_audio-Tracks : (i : ℕ) → Settles (finish_without_audio i db).0
  unfolding finish_without_audio
  no_audio-Tracks i = elim (Option-cases (claimed CallStatus.transcribing i db)) [
    | inl e ↦ rw (e, finish_without_audio) (Tracks-refl s (flags db) db.calls)
    | inr (c, e) ↦
        rw (e, finish_without_audio)
          (settle_one i CallStatus.transcribing fail_without_audio c e
            (unfold fail_without_audio in refl) (λ h. Rows.no_audio h refl))
  ]

  -- A claimed row is failed or released by the batch poller.
  pub fail-Tracks : (e : String) (i : ℕ) → Settles (Batch.fail e i db)
  unfolding Batch.fail Batch.if_claimed
  fail-Tracks e i = elim (Option-cases (claimed CallStatus.scoring i db)) [
    | inl h ↦ rw (h, Batch.if_claimed) (Tracks-refl s (flags db) db.calls)
    | inr (c, h) ↦
        rw (h, Batch.if_claimed)
          (settle_one i CallStatus.scoring (fail_row e) c h (unfold fail_row in refl)
            (λ k. Rows.score_failed e k refl))
  ]

  pub release-Tracks : (i : ℕ) → Settles (Batch.release i db)
  unfolding Batch.release Batch.if_claimed
  release-Tracks i = elim (Option-cases (claimed CallStatus.scoring i db)) [
    | inl h ↦ rw (h, Batch.if_claimed) (Tracks-refl s (flags db) db.calls)
    | inr (c, h) ↦
        rw (h, Batch.if_claimed)
          (settle_one i CallStatus.scoring released_row c h refl (λ k. Rows.released k refl))
  ]

  pub start_score-Tracks : (i : ℕ) → Settles (start_score i db).0
  unfolding start_score
  start_score-Tracks i = elim (Option-cases (claimed CallStatus.scoring i db)) [
    | inl h ↦ rw (h, start_score) (Tracks-refl s (flags db) db.calls)
    | inr (c, h) ↦ elim (Bool-cases (has_transcript i db.transcripts)) [
      | inl there ↦ rw (h, there, start_score) (Tracks-refl s (flags db) db.calls)
      | inr missing ↦
          rw (h, missing, start_score)
            (settle_one i CallStatus.scoring fail_without_transcript c h
              (unfold fail_without_transcript in refl) (λ k. Rows.no_transcript k missing refl))
    ]
  ]

  -- Persisting a transcript only adds one, under the call's own id.
  transcript_kept :
      (hk : Bool) (o : Transcribed) (i j : ℕ) (ts : List Transcript)
      → (i == j) ≡ false
      → has_transcript j (settle_transcripts hk o i ts) ≡ has_transcript j ts
  unfolding settle_transcripts
  transcript_kept hk (transcription_error e) i j ts other = refl
  transcript_kept hk (result r) i j ts other =
      ground (arith, has-upsert j (Transcribe.to_row i r) ts)

  transcript_stays :
      (hk : Bool) (o : Transcribed) (i j : ℕ) (ts : List Transcript)
      → has_transcript j ts ≡ true
      → has_transcript j (settle_transcripts hk o i ts) ≡ true
  unfolding settle_transcripts
  transcript_stays hk (transcription_error e) i j ts h = h
  transcript_stays hk (result r) i j ts h = ground (arith, has-upsert j (Transcribe.to_row i r) ts)

  transcript_stored :
      (hk : Bool) (o : Transcribed) (c : Call) (ts : List Transcript)
      → (settle_row hk o c).status ≡ CallStatus.transcribed
      → has_transcript c.id (settle_transcripts hk o c.id ts) ≡ true
  unfolding settle_transcripts settle_row
  transcript_stored hk (transcription_error e) c ts h = cc
  transcript_stored hk (result r) c ts h =
      ground (arith, has-upsert c.id (Transcribe.to_row c.id r) ts)

  settle_row_id : (hk : Bool) (o : Transcribed) (c : Call) → (settle_row hk o c).id ≡ c.id
  unfolding settle_row
  settle_row_id hk (result r) c = refl
  settle_row_id hk (transcription_error e) c = refl

  pub transcribe-Tracks :
      (hk : Bool) (i : ℕ) (o : Transcribed)
      → let db' = (finish_transcribe hk i o db).0 in
        Tracks s (flags db) (flags db') db.calls db'.calls
  unfolding finish_transcribe Transcribe.settle
  transcribe-Tracks hk i o = elim (Option-cases (claimed CallStatus.transcribing i db)) [
    | inl e ↦ rw (e, finish_transcribe) (Tracks-refl s (flags db) db.calls)
    | inr (c, e) ↦
        let (found, in_status) = claimed_facts CallStatus.transcribing i db e in
        let key : c.id ≡ i = get-id i db.calls found in
        rw (e, finish_transcribe)
          (put-Tracks s (flags db) _ i db.calls c (settle_row hk o c) found
            (settle_row_id hk o c ∙ key)
            (Rows.transcribed hk o in_status (transcript_stays hk o c.id i db.transcripts) (λ h.
              subst (λ k. has_transcript k (settle_transcripts hk o c.id db.transcripts) ≡ true) key
                (transcript_stored hk o c db.transcripts h)))
            (λ j other. transcript_kept hk o c.id j db.transcripts (ground arith)))
  ]

  -- Relabelling a transcript neither adds nor removes one.
  reconcile_kept :
      (r : CallScore) (i j : ℕ) (ts : List Transcript)
      → has_transcript j (Score.reconcile_row r i ts) ≡ has_transcript j ts
  reconcile_kept r i j ts = elim (Option-cases (get_transcript i ts)) [
    | inl e ↦ rw (e, Score.reconcile_row)
    | inr (t, e) ↦ rw (e, Score.reconcile_row) (has-put j _ ts)
  ]

  -- Scoring a claimed row, whatever the assessment says.
  fail_call-Settles :
      (env : Env) (e : String) (i : ℕ) (c : Call)
      → claimed CallStatus.scoring i db ≡ some c
      → Settles (fail_call env e c db).0
  fail_call-Settles env e i c h =
      settle_one i CallStatus.scoring (fail_row e) c h (unfold fail_row in refl)
        (λ k. Rows.score_failed e k refl)

  settle_assembled-Settles :
      (env : Env) (r : CallScore) (i : ℕ) (c : Call) (a : Assembled)
      → claimed CallStatus.scoring i db ≡ some c
      → Settles (settle_assembled env r c db a).0
  unfolding settle_assembled
  settle_assembled-Settles env r i c (omitted missing) h =
      fail_call-Settles env "scoring: scorer omitted criteria" i c h
  settle_assembled-Settles env r i c (payload p) h =
      let (found, in_status) = claimed_facts CallStatus.scoring i db h in
      put-Tracks s (flags db) (flags (settle_scored env r p c db).0) i db.calls c (scored_row c)
        found (unfold scored_row in get-id i db.calls found)
        (Rows.scored in_status (reconcile_kept r c.id i db.transcripts))
        (λ j other. reconcile_kept r c.id j db.transcripts)

  pub settle-Settles :
      (env : Env) (i : ℕ) (a : Assessed) (c : Call)
      → claimed CallStatus.scoring i db ≡ some c
      → Settles (Score.settle env a c db).0
  unfolding Score.settle
  settle-Settles env i (scoring_error e) c h = fail_call-Settles env e i c h
  settle-Settles env i (assessment r) c h = settle_assembled-Settles env r i c _ h

  pub score-Tracks : (env : Env) (i : ℕ) (a : Assessed) → Settles (finish_score env i a db).0
  unfolding finish_score
  score-Tracks env i a = elim (Option-cases (claimed CallStatus.scoring i db)) [
    | inl e ↦ rw (e, finish_score) (Tracks-refl s (flags db) db.calls)
    | inr (c, e) ↦ rw (e, finish_score) (settle-Settles env i a c e)
  ]

  pub persist-Tracks :
      (env : Env) (i : ℕ) (a : Assessed) → Settles (Batch.persist_result env i a db).0
  unfolding Batch.persist_result
  persist-Tracks env i (scoring_error e) = fail-Tracks e i
  persist-Tracks env i (assessment r) = elim (Option-cases (claimed CallStatus.scoring i db)) [
    | inl e ↦ rw (e, Batch.persist_result) (Tracks-refl s (flags db) db.calls)
    | inr (c, e) ↦ rw (e, Batch.persist_result) (settle-Settles env i (assessment r) c e)
  ]
