-- ===== src/Samples/Journey.antt =====
-- One call from its ingestion to the claim for scoring.
use Prim.Native.Char.{Char}
use mathlib.Core.List.{Memᴰ}
use atamura_okk.Base.{some, ◌≡◌, refl, ◌≢◌, arith, Bool, true, none, [], sort_by}
use atamura_okk.Store.{
  Call, CallStatus, Db, get, put, update_where, claimed, has_transcript, upsert_transcript,
}
use atamura_okk.Settings.{defaults}
use atamura_okk.Dispatch.Claim.{claim_ready, candidates, is_claimable, claim_row}
use atamura_okk.Ingestion.Scope.{
  recompute_client, put_all, scope_rows, history_le, stamp, apply_scope, is_frozen, skip_reason_of,
}
use atamura_okk.Ingestion.Upsert.{upsert_call, next_id, upsert_rows, inserted, refreshed}
use atamura_okk.Stages.Download.{object_key, sanitize, apply_download}
use atamura_okk.Stages.Transcribe
use atamura_okk.Stages.Transcribe.{
  Transcribed, result, transcription_error, settle_row, settle_transcripts,
}
use atamura_okk.Stages.Tasks.{
  fetching, transcribing, stored, download_row, start_download, finish_download, start_transcribe,
  finish_transcribe,
}
use atamura_okk.Pipeline.System.{initial, Transaction, Ends, Step, Reach}
use atamura_okk.Ops.Retry.{Route, route}
use atamura_okk.Pipeline.Tracks.Steps.{flags}
use atamura_okk.Pipeline.DeadLetters.{Reach-no_redownload}
use atamura_okk.Pipeline.Graph.{Reach-has_text}
use atamura_okk.Samples.Data.{scoped_row, unlocked, downloading, Reach-downloading}

abbrev any_char : Char → Bool
any_char c = true

abbrev heard : Transcribed
heard = result (record {
  language = "ru";
  full_text = "[AGENT] Алло";
  segments = [];
  model = "stt";
  stereo = none;
})

-- What the journey computes with.
unfoldable journey : Unit {0}
unfolding recompute_client put_all scope_rows sort_by upsert_call next_id put upsert_rows inserted
    refreshed history_le stamp apply_scope is_frozen skip_reason_of claim_ready candidates
    is_claimable claim_row update_where get claimed object_key sanitize apply_download download_row
    start_download finish_download start_transcribe finish_transcribe settle_row settle_transcripts
    Transcribe.settle has_transcript upsert_transcript
journey = tt

abbrev fetched : Db
fetched = (finish_download any_char 1 stored downloading).0

abbrev transcribing_db : Db
transcribing_db =
    (claim_ready 200 unlocked CallStatus.downloaded CallStatus.transcribing 50 none none fetched).0

abbrev heard_db : Db
heard_db = (finish_transcribe true 1 heard transcribing_db).0

abbrev to_score : Db
to_score =
    (claim_ready 300 unlocked CallStatus.transcribed CallStatus.scoring 50 none none heard_db).0

Reach-fetched : Reach defaults (record initial { db = fetched })
unfolding journey
Reach-fetched =
    Reach.next (Reach.next Reach-downloading (Step.begin_download 1))
      (Step.finish [] [] (fetching 1) refl (Ends.download any_char 1 stored downloading))

Reach-heard : Reach defaults (record initial { db = heard_db })
unfolding journey
Reach-heard =
    Reach.next
      (Reach.next
        (Reach.next Reach-fetched (
          Step.transaction
            (Transaction.claimed 200 unlocked (Memᴰ.tail (Memᴰ.head refl)) 50 none none)))
        (Step.begin_transcribe 1))
      (Step.finish [] [] (transcribing 1 "calls/B1.mp3") refl
        (Ends.transcribe true 1 "calls/B1.mp3" heard transcribing_db))

Reach-to_score : Reach defaults (record initial { db = to_score })
Reach-to_score = Reach.next Reach-heard (
    Step.transaction
      (Transaction.claimed 300 unlocked (Memᴰ.tail (Memᴰ.tail (Memᴰ.head refl))) 50 none none))

Reach-has_text_example : has_transcript 1 to_score.transcripts ≡ true
unfolding journey
Reach-has_text_example = Reach-has_text defaults Reach-to_score 1 refl

-- The same call when its transcription fails.
abbrev failed_db : Db
failed_db = (finish_transcribe true 1 (transcription_error "timeout") transcribing_db).0

abbrev failed_row : Call
failed_row = record scoped_row {
  status = CallStatus.failed;
  audio_object_key = some "calls/B1.mp3";
  error = some "timeout";
  attempts = 2;
}

Reach-failed : Reach defaults (record initial { db = failed_db })
unfolding journey
Reach-failed =
    Reach.next
      (Reach.next
        (Reach.next Reach-fetched (
          Step.transaction
            (Transaction.claimed 200 unlocked (Memᴰ.tail (Memᴰ.head refl)) 50 none none)))
        (Step.begin_transcribe 1))
      (Step.finish [] [] (transcribing 1 "calls/B1.mp3") refl
        (Ends.transcribe true 1 "calls/B1.mp3" (transcription_error "timeout") transcribing_db))

found_failed : get 1 failed_db.calls ≡ some failed_row
unfolding journey
found_failed = refl

Reach-no_redownload_example : route (flags failed_db 1) failed_row ≢ Route.to_new
Reach-no_redownload_example =
    Reach-no_redownload defaults Reach-failed (omega arith) 1 found_failed refl (omega arith)
