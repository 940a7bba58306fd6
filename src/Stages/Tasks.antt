-- ===== src/Stages/Tasks.antt =====
-- The units of work that the broker runs: `download_one`, `transcribe_one`, `score_one`. Each
-- opens with a transaction that checks the claim, works outside the database, and closes with a
-- transaction that checks the claim again. `between` is what the rest of the system did to the
-- database in the meantime.
use Prim.Native.Char.{Char}
use atamura_okk.Base.{ℕ, String, Bool, Option, none, some, if◌then◌else◌}
use atamura_okk.Store.{CallStatus, Call, Db, put, has_transcript, claimed}
use atamura_okk.Stages.Download.{object_key, apply_download}
use atamura_okk.Stages.Transcribe
use atamura_okk.Stages.Transcribe.{
  TranscriptResult, Transcribed, is_present, fail_without_audio, settle_row,
}
use atamura_okk.Stages.Score
use atamura_okk.Stages.Score.{Assessed, Env, fail_without_transcript}

-- The string that a unit of work returns: a status value or `"skipped"`.
pub data Outcome : Type 0 where
  not_claimed : Outcome
  settled : CallStatus → Outcome

-- A task between its two transactions.
pub data Task : Type 0 where
  fetching : (call_id : ℕ) → Task
  transcribing : (call_id : ℕ) → (key : String) → Task
  without_audio : (call_id : ℕ) → Task
  assessing : (call_id : ℕ) → Task

-- The outcome of `_fetch_recording`: a stored object, or an error text.
pub data Fetched : Type 0 where
  stored : Fetched
  fetch_error : String → Fetched

unfoldable pub start_download : ℕ → Db → Option Task
start_download i db = elim (claimed CallStatus.downloading i db) [
  | none ↦ none
  | some c ↦ some (fetching i)
]

-- The object is stored under a key that is made of the call's Bitrix id.
unfoldable pub download_row : (Char → Bool) → Fetched → Call → Call
unfolding apply_download
download_row is_alnum stored c = apply_download c (some (object_key is_alnum c.bitrix_call_id)) none
download_row is_alnum (fetch_error e) c = apply_download c none (some e)

unfoldable pub finish_download : (Char → Bool) → ℕ → Fetched → Db → Db × Outcome
finish_download is_alnum i fetched db = elim (claimed CallStatus.downloading i db) [
  | none ↦ (db, not_claimed)
  | some c ↦
      let c' = download_row is_alnum fetched c in
      (record db { calls = put c' db.calls }, settled c'.status)
]

unfoldable pub start_transcribe : ℕ → Db → Option Task
start_transcribe i db = elim (claimed CallStatus.transcribing i db) [
  | none ↦ none
  | some c ↦ elim c.audio_object_key [
    | none ↦ some (without_audio i)
    | some key ↦ if is_present (some key) then some (transcribing i key) else some (without_audio i)
  ]
]

unfoldable pub finish_without_audio : ℕ → Db → Db × Outcome
finish_without_audio i db = elim (claimed CallStatus.transcribing i db) [
  | none ↦ (db, not_claimed)
  | some c ↦ (record db { calls = put (fail_without_audio c) db.calls }, settled CallStatus.failed)
]

unfoldable pub finish_transcribe : Bool → ℕ → Transcribed → Db → Db × Outcome
unfolding Transcribe.settle
finish_transcribe handles_kazakh i outcome db = elim (claimed CallStatus.transcribing i db) [
  | none ↦ (db, not_claimed)
  | some c ↦ (
    Transcribe.settle handles_kazakh outcome c db,
    settled (settle_row handles_kazakh outcome c).status,
  )
]

-- The first transaction of `score_one` settles a call that has no transcript.
unfoldable pub start_score : ℕ → Db → Db × Option Task
start_score i db = elim (claimed CallStatus.scoring i db) [
  | none ↦ (db, none)
  | some c ↦
      if has_transcript i db.transcripts
      then (db, some (assessing i))
      else (record db { calls = put (fail_without_transcript c) db.calls }, none)
]

-- The last transaction, with the user that was alerted.
unfoldable pub finish_score : Env → ℕ → Assessed → Db → Db × Option ℕ
unfolding Score.settle
finish_score env i assessed db = elim (claimed CallStatus.scoring i db) [
  | none ↦ (db, none)
  | some c ↦ Score.settle env assessed c db
]

-- `download_one`
unfoldable pub download_one : (Char → Bool) → Fetched → (Db → Db) → ℕ → Db → Db × Outcome
unfolding start_download finish_download
download_one is_alnum fetched between i db = elim (start_download i db) [
  | none ↦ (db, not_claimed)
  | some t ↦ finish_download is_alnum i fetched (between db)
]

-- `transcribe_one`
unfoldable pub transcribe_one : Bool → (String → Transcribed) → (Db → Db) → ℕ → Db → Db × Outcome
unfolding start_transcribe finish_transcribe finish_without_audio
transcribe_one handles_kazakh engine between i db = elim (start_transcribe i db) [
  | some (transcribing _ key) ↦ finish_transcribe handles_kazakh i (engine key) (between db)
  | some (without_audio _) ↦ finish_without_audio i (between db)
  | _ ↦ (db, not_claimed)
]

-- `score_one`
unfoldable pub score_one : Env → Assessed → (Db → Db) → ℕ → Db → Db × Option ℕ
unfolding start_score finish_score
score_one env assessed between i db =
    let (db1, task) = start_score i db in
    elim task [ none ↦ (db1, none) | some t ↦ finish_score env i assessed (between db1) ]
