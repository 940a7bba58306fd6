-- ===== src/Drivers/Sweeps.antt =====
-- The single-process sweeps: `download_pending` (AtamuraOKK/ingestion/download.py) and
-- `transcribe_pending` with `_tally` (AtamuraOKK/transcription/worker.py), each as it runs when no
-- other process writes in between and its tasks end in the order of the claim.
use Prim.Native.Char.{Char}
use atamura_okk.Base.{
  ℕ, ◌+◌, ◌≡◌, refl, inl, inr, String, Bool, none, List, [], ◌∷◌, arith, Option-cases, Bool-cases,
}
use atamura_okk.Store.{CallStatus, Call, Db, claimed}
use atamura_okk.Dispatch.Claim.{claim_ready}
use atamura_okk.Stages.Transcribe.{Transcribed, result, transcription_error, settle_row, is_parked}
use atamura_okk.Stages.Tasks.{
  Outcome, not_claimed, settled, fetching, transcribing, without_audio, assessing, Fetched,
  start_transcribe, finish_transcribe, finish_without_audio, download_one, transcribe_one,
}

pub record DownloadStats : Type 0 where
  pub attempted : ℕ
  pub downloaded : ℕ
  pub failed : ℕ

-- The counting at the end of the loop's body.
abbrev pub count_download : Outcome → DownloadStats → DownloadStats
count_download not_claimed st = st
count_download (settled CallStatus.downloaded) st = record st {
  attempted = st.attempted + 1;
  downloaded = st.downloaded + 1;
}
count_download (settled CallStatus.failed) st = record st {
  attempted = st.attempted + 1;
  failed = st.failed + 1;
}
count_download (settled _) st = record st { attempted = st.attempted + 1 }

unfoldable pub download_list :
    (Char → Bool) → (ℕ → Fetched) → List ℕ → Db × DownloadStats → Db × DownloadStats
unfolding download_one
download_list is_alnum fetch [] acc = acc
download_list is_alnum fetch (i ∷ is) (db, st) =
    let (db', o) = download_one is_alnum (fetch i) (λ d. d) i db in
    download_list is_alnum fetch is (db', count_download o st)

-- `download_pending`
unfoldable pub download_pending :
    ℕ → (ℕ → Bool) → (Char → Bool) → (ℕ → Fetched) → ℕ → Db → Db × DownloadStats
unfolding download_list
download_pending now locked is_alnum fetch limit db =
    let (db1, call_ids) =
      claim_ready now locked CallStatus.new CallStatus.downloading limit none none db in
    download_list is_alnum fetch call_ids
      (db1, record { attempted = 0; downloaded = 0; failed = 0 })

pub record TranscribeStats : Type 0 where
  pub attempted : ℕ
  pub transcribed : ℕ
  pub pending_kk : ℕ
  pub failed : ℕ

-- `_tally`, under the test that its caller makes.
unfoldable pub tally : Outcome → TranscribeStats → TranscribeStats
tally not_claimed st = st
tally (settled CallStatus.transcribed) st = record st {
  attempted = st.attempted + 1;
  transcribed = st.transcribed + 1;
}
tally (settled CallStatus.pending_kk) st = record st {
  attempted = st.attempted + 1;
  pending_kk = st.pending_kk + 1;
}
tally (settled CallStatus.failed) st = record st {
  attempted = st.attempted + 1;
  failed = st.failed + 1;
}
tally (settled _) st = record st { attempted = st.attempted + 1 }

unfoldable pub transcribe_list :
    Bool → (String → Transcribed) → List ℕ → Db × TranscribeStats → Db × TranscribeStats
unfolding transcribe_one tally
transcribe_list handles_kazakh engine [] acc = acc
transcribe_list handles_kazakh engine (i ∷ is) (db, st) =
    let (db', o) = transcribe_one handles_kazakh engine (λ d. d) i db in
    transcribe_list handles_kazakh engine is (db', tally o st)

-- `transcribe_pending`
unfoldable pub transcribe_pending :
    ℕ → (ℕ → Bool) → Bool → (String → Transcribed) → ℕ → Db → Db × TranscribeStats
unfolding transcribe_list
transcribe_pending now locked handles_kazakh engine limit db =
    let (db1, call_ids) =
      claim_ready now locked CallStatus.downloaded CallStatus.transcribing limit none none db in
    transcribe_list handles_kazakh engine call_ids
      (db1, record { attempted = 0; transcribed = 0; pending_kk = 0; failed = 0 })

-- What a transcription task can return.
abbrev pub IsFinal : Outcome → Type 0
IsFinal not_claimed = Unit {0}
IsFinal (settled CallStatus.transcribed) = Unit {0}
IsFinal (settled CallStatus.pending_kk) = Unit {0}
IsFinal (settled CallStatus.failed) = Unit {0}
IsFinal _ = ⊥

module _ (handles_kazakh : Bool) where
  settle_row-IsFinal :
      (o : Transcribed) (c : Call) → IsFinal (settled (settle_row handles_kazakh o c).status)
  unfolding settle_row
  settle_row-IsFinal (result r) c = elim (Bool-cases (is_parked handles_kazakh r)) [
    | inl e ↦ rw e tt
    | inr e ↦ rw e tt
  ]
  settle_row-IsFinal (transcription_error e) c = tt

  finish-IsFinal :
      (i : ℕ) (o : Transcribed) (db : Db) → IsFinal (finish_transcribe handles_kazakh i o db).1
  unfolding finish_transcribe
  finish-IsFinal i o db = elim (Option-cases (claimed CallStatus.transcribing i db)) [
    | inl e ↦ rw (e, finish_transcribe) tt
    | inr (c, e) ↦ rw (e, finish_transcribe) (settle_row-IsFinal o c)
  ]

  without_audio-IsFinal : (i : ℕ) (db : Db) → IsFinal (finish_without_audio i db).1
  unfolding finish_without_audio
  without_audio-IsFinal i db = elim (Option-cases (claimed CallStatus.transcribing i db)) [
    | inl e ↦ rw (e, finish_without_audio) tt
    | inr (c, e) ↦ rw (e, finish_without_audio) tt
  ]

  transcribe_one-IsFinal :
      (engine : String → Transcribed) (between : Db → Db) (i : ℕ) (db : Db)
      → IsFinal (transcribe_one handles_kazakh engine between i db).1
  unfolding transcribe_one
  transcribe_one-IsFinal engine between i db = elim (Option-cases (start_transcribe i db)) [
    | inl e ↦ rw (e, transcribe_one) tt
    | inr (fetching j, e) ↦ rw (e, transcribe_one) tt
    | inr (transcribing j key, e) ↦
        rw (e, transcribe_one) (finish-IsFinal i (engine key) (between db))
    | inr (without_audio j, e) ↦ rw (e, transcribe_one) (without_audio-IsFinal i (between db))
    | inr (assessing j, e) ↦ rw (e, transcribe_one) tt
  ]

  abbrev pub IsSummed : TranscribeStats → Type 0
  IsSummed st = st.attempted ≡ st.transcribed + (st.pending_kk + st.failed)

  tally-IsSummed :
      (o : Outcome) (st : TranscribeStats) → IsFinal o → IsSummed st → IsSummed (tally o st)
  unfolding tally
  tally-IsSummed not_claimed st h k = k
  tally-IsSummed (settled s) st h k = ground arith

  transcribe_list-IsSummed :
      (engine : String → Transcribed) (is : List ℕ) (acc : Db × TranscribeStats)
      → IsSummed acc.1
      → IsSummed (transcribe_list handles_kazakh engine is acc).1
  unfolding transcribe_list
  transcribe_list-IsSummed engine [] acc h = h
  transcribe_list-IsSummed engine (i ∷ is) (db, st) h =
      let step = transcribe_one handles_kazakh engine (λ d. d) i db in
      transcribe_list-IsSummed engine is (step.0, tally step.1 st)
        (tally-IsSummed step.1 st (transcribe_one-IsFinal engine (λ d. d) i db) h)

  -- The summary of a transcription sweep accounts for every attempt: each one was transcribed,
  -- parked as Kazakh, or failed.
  pub transcribe_pending-sums :
      (now : ℕ) (locked : ℕ → Bool) (engine : String → Transcribed) (limit : ℕ) (db : Db)
      → let st = (transcribe_pending now locked handles_kazakh engine limit db).1 in
        st.attempted ≡ st.transcribed + (st.pending_kk + st.failed)
  unfolding transcribe_pending
  transcribe_pending-sums now locked engine limit db =
      let (db1, call_ids) =
        claim_ready now locked CallStatus.downloaded CallStatus.transcribing limit none none db in
      transcribe_list-IsSummed engine call_ids
        (db1, record { attempted = 0; transcribed = 0; pending_kk = 0; failed = 0 }) refl
