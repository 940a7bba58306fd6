-- ===== src/Pipeline/Redelivery.antt =====
-- A broker delivers at least once. What the closing transactions of `download_one`,
-- `transcribe_one`, `score_one` and `_persist_result` do when the claim no longer holds, and when
-- they run a second time.
use Prim.Native.Char.{Char}
use atamura_okk.Base.{
  ℕ, ◌≡◌, refl, sym, subst, String, Bool, false, none, some, inl, inr, ◌∙◌, arith, Option-cases,
}
use atamura_okk.Store.{CallStatus, Call, Db, status_eq, get, put, claimed}
use atamura_okk.Store.Laws.{get-id, get-put_found}
use atamura_okk.Pipeline.Tracks.Settling.{claimed_facts}
use atamura_okk.Stages.Transcribe
use atamura_okk.Stages.Transcribe.{Transcribed, result, transcription_error, settle_row}
use atamura_okk.Stages.Score
use atamura_okk.Stages.Score.{
  Env, Assessed, assessment, scoring_error, fail_row, fail_call, scored_row, settle_assembled,
  settle_scored,
}
use atamura_okk.Stages.Batch
use atamura_okk.Scoring.CallScore.{CallScore}
use atamura_okk.Scoring.Assemble.{Assembled, payload, omitted}
use atamura_okk.Stages.Download.{apply_download}
use atamura_okk.Stages.Tasks.{
  not_claimed, Fetched, stored, fetch_error, download_row, finish_download, finish_transcribe,
  finish_score,
}

-- After a row is put in a status other than `st`, no claim of `st` on it holds.
put_released :
    (st : CallStatus) (i : ℕ) (db db' : Db) {c : Call} (c' : Call)
    → claimed st i db ≡ some c
    → c'.id ≡ c.id
    → status_eq c'.status st ≡ false
    → db'.calls ≡ put c' db.calls
    → claimed st i db' ≡ none
unfolding claimed
put_released st i db db' {c} c' h key off e =
    let (found, in_status) = claimed_facts st i db h in
    let now : get i db'.calls ≡ some c' =
      subst (λ cs. get i cs ≡ some c') (sym e)
        (get-put_found i c' db.calls (key ∙ get-id i db.calls found) found) in
    rw (now, claimed) (rw off refl)

module _ (is_alnum : Char → Bool) where
  finish_download-lost :
      (i : ℕ) (o : Fetched) (db : Db)
      → claimed CallStatus.downloading i db ≡ none
      → finish_download is_alnum i o db ≡ (db, not_claimed)
  unfolding finish_download
  finish_download-lost i o db lost = rw (lost, finish_download) refl

  download_row-settled :
      (o : Fetched) (c : Call)
      → (status_eq (download_row is_alnum o c).status CallStatus.downloading ≡ false)
        × ((download_row is_alnum o c).id ≡ c.id)
  unfolding download_row apply_download
  download_row-settled stored c = (refl, refl)
  download_row-settled (fetch_error e) c = ground arith

  download-released :
      (i : ℕ) (o : Fetched) (db : Db)
      → claimed CallStatus.downloading i (finish_download is_alnum i o db).0 ≡ none
  unfolding finish_download
  download-released i o db = elim (Option-cases (claimed CallStatus.downloading i db)) [
    | inl e ↦ rw (e, finish_download) e
    | inr (c, e) ↦
        let (off, key) = download_row-settled o c in
        rw (e, finish_download)
          (put_released CallStatus.downloading i db _ (download_row is_alnum o c) e key off refl)
  ]

  -- A download that is delivered again, with whatever outcome, changes nothing after the first
  -- delivery has settled the call.
  pub finish_download-twice :
      (i : ℕ) (first second : Fetched) (db : Db)
      → let db' = (finish_download is_alnum i first db).0 in
        finish_download is_alnum i second db' ≡ (db', not_claimed)
  finish_download-twice i first second db =
      finish_download-lost i second (finish_download is_alnum i first db).0
        (download-released i first db)

module _ (handles_kazakh : Bool) where
  settle_row-settled :
      (o : Transcribed) (c : Call)
      → (status_eq (settle_row handles_kazakh o c).status CallStatus.transcribing ≡ false)
        × ((settle_row handles_kazakh o c).id ≡ c.id)
  unfolding settle_row
  settle_row-settled (result r) c = ground arith
  settle_row-settled (transcription_error e) c = (refl, refl)

  transcribe-released :
      (i : ℕ) (o : Transcribed) (db : Db)
      → claimed CallStatus.transcribing i (finish_transcribe handles_kazakh i o db).0 ≡ none
  unfolding finish_transcribe Transcribe.settle
  transcribe-released i o db = elim (Option-cases (claimed CallStatus.transcribing i db)) [
    | inl e ↦ rw (e, finish_transcribe) e
    | inr (c, e) ↦
        let (off, key) = settle_row-settled o c in
        rw (e, finish_transcribe)
          (put_released CallStatus.transcribing i db _ (settle_row handles_kazakh o c) e key off
            refl)
  ]

  -- A transcription that is delivered again, with whatever outcome, changes neither the call nor
  -- the transcript after the first delivery has settled the call.
  pub finish_transcribe-twice :
      (i : ℕ) (first second : Transcribed) (db : Db)
      → let db' = (finish_transcribe handles_kazakh i first db).0 in
        finish_transcribe handles_kazakh i second db' ≡ (db', not_claimed)
  unfolding finish_transcribe
  finish_transcribe-twice i first second db =
      rw (transcribe-released i first db, finish_transcribe) refl

module _ (env : Env) (i : ℕ) where
  -- Settling a call writes its row once, in a status other than SCORING.
  abbrev pub IsSettled : Call → Db → Db → Type 0
  IsSettled c db db' =
      (c' : Call) × (db'.calls ≡ put c' db.calls)
      × (c'.id ≡ c.id)
      × (status_eq c'.status CallStatus.scoring ≡ false)

  fail-IsSettled : (e : String) (c : Call) (db : Db) → IsSettled c db (fail_call env e c db).0
  fail-IsSettled e c db = (fail_row e c, refl, unfold fail_row in refl, unfold fail_row in refl)

  assembled-IsSettled :
      (r : CallScore) (c : Call) (db : Db) (m : Assembled)
      → IsSettled c db (settle_assembled env r c db m).0
  unfolding settle_assembled settle_scored
  assembled-IsSettled r c db (payload p) =
      (scored_row c, refl, unfold scored_row in refl, unfold scored_row in refl)
  assembled-IsSettled r c db (omitted missing) =
      fail-IsSettled "scoring: scorer omitted criteria" c db

  pub settle-IsSettled :
      (a : Assessed) (c : Call) (db : Db) → IsSettled c db (Score.settle env a c db).0
  unfolding Score.settle
  settle-IsSettled (scoring_error e) c db = fail-IsSettled e c db
  settle-IsSettled (assessment r) c db = assembled-IsSettled r c db _

  settle-released :
      (a : Assessed) (c : Call) (db : Db)
      → claimed CallStatus.scoring i db ≡ some c
      → claimed CallStatus.scoring i (Score.settle env a c db).0 ≡ none
  settle-released a c db h =
      let (c', written, key, off) = settle-IsSettled a c db in
      put_released CallStatus.scoring i db (Score.settle env a c db).0 c' h key off written

  score-released :
      (a : Assessed) (db : Db) → claimed CallStatus.scoring i (finish_score env i a db).0 ≡ none
  unfolding finish_score
  score-released a db = elim (Option-cases (claimed CallStatus.scoring i db)) [
    | inl e ↦ rw (e, finish_score) e
    | inr (c, e) ↦ rw (e, finish_score) (settle-released a c db e)
  ]

  persist-lost :
      (a : Assessed) (db : Db)
      → claimed CallStatus.scoring i db ≡ none
      → Batch.persist_result env i a db ≡ (db, false, none)
  unfolding Batch.persist_result
  persist-lost (scoring_error e) db lost = rw (lost, Batch.if_claimed) refl
  persist-lost (assessment r) db lost = rw (lost, Batch.persist_result) refl

  -- Once a call has been scored, or its scoring has failed, neither a second delivery of the task
  -- nor a batch result that arrives for it changes anything, and no alert goes out.
  pub finish_score-once :
      (first second : Assessed) (db : Db)
      → let db' = (finish_score env i first db).0 in
        (finish_score env i second db' ≡ (db', none))
        × (Batch.persist_result env i second db' ≡ (db', false, none))
  unfolding finish_score
  finish_score-once first second db = (
    rw (score-released first db, finish_score) refl,
    persist-lost second (finish_score env i first db).0 (score-released first db),
  )
