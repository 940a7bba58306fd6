-- ===== src/Stages/Transcribe.antt =====
-- AtamuraOKK/transcription/worker.py: DOWNLOADED -> TRANSCRIBED, or PENDING_KK for Kazakh speech
-- that the engine cannot handle.
-- The engine with the two text corrections behind it is a parameter: a result or an error text.
use atamura_okk.Base.{
  ℕ, ◌+◌, String, Bool, false, ◌&&◌, not, Option, none, some, List, str_eq, if◌then◌else◌,
}
use atamura_okk.Store.{CallStatus, Call, Segment, Transcript, Db, upsert_transcript, put}

-- `TranscriptResult`; `stereo` is `meta.get("stereo")`.
pub record TranscriptResult : Type 0 where
  pub language : String
  pub full_text : String
  pub segments : List Segment
  pub model : String
  pub stereo : Option Bool

pub data Transcribed : Type 0 where
  result : TranscriptResult → Transcribed
  transcription_error : String → Transcribed

-- `if not audio_object_key`
abbrev pub is_present : Option String → Bool
is_present none = false
is_present (some key) = not (str_eq key "")

-- The branch of a call that has no audio: no attempt is counted.
unfoldable pub fail_without_audio : Call → Call
fail_without_audio c = record c {
  status = CallStatus.failed;
  error = some "no audio_object_key";
  claimed_at = none;
}

abbrev pub to_row : ℕ → TranscriptResult → Transcript
to_row i r = record {
  call_id = i;
  language = some r.language;
  full_text = r.full_text;
  segments = r.segments;
  manager_side_applied = false;
  model = some r.model;
}

abbrev pub is_parked : Bool → TranscriptResult → Bool
is_parked handles_kazakh r = str_eq r.language "kk" && not handles_kazakh

-- The call's row after the last transaction of `transcribe_one`.
unfoldable pub settle_row : Bool → Transcribed → Call → Call
settle_row handles_kazakh (result r) c = record c {
  is_stereo = r.stereo;
  language = some r.language;
  status = if is_parked handles_kazakh r then CallStatus.pending_kk else CallStatus.transcribed;
  error = none;
  claimed_at = none;
}
settle_row handles_kazakh (transcription_error e) c = record c {
  status = CallStatus.failed;
  error = some e;
  attempts = c.attempts + 1;
  claimed_at = none;
}

-- `_persist_transcript`, reached only for a result that is not parked.
unfoldable pub settle_transcripts : Bool → Transcribed → ℕ → List Transcript → List Transcript
settle_transcripts handles_kazakh (result r) i ts =
    if is_parked handles_kazakh r then ts else upsert_transcript (to_row i r) ts
settle_transcripts handles_kazakh (transcription_error e) i ts = ts

unfoldable pub settle : Bool → Transcribed → Call → Db → Db
unfolding settle_row settle_transcripts
settle handles_kazakh outcome c db = record db {
  calls = put (settle_row handles_kazakh outcome c) db.calls;
  transcripts = settle_transcripts handles_kazakh outcome c.id db.transcripts;
}
