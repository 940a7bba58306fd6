-- ===== src/Pipeline/Invariant.antt =====
-- What holds of every row in every reachable state of the pipeline.
use Prim.Native.Char.{Char}
use Prim.Native.String.{◌++◌, len}
use text.Mathlib.TextPositions.{len-append}
use atamura_okk.Base.{
  ℕ, ◌≢◌, ap, eq_iff, ◌≡◌, refl, Bool, true, false, Option, none, some, arith, is_some, String,
}
use atamura_okk.Store.{CallStatus, Call, Db, in_flight, get, has_transcript}
use atamura_okk.Settings.{Settings}
use atamura_okk.Ingestion.Upsert.{inserted}
use atamura_okk.Stages.Download.{sanitize, object_key}
use atamura_okk.Stages.Transcribe.{is_present}
use atamura_okk.Stages.Tasks.{stored}
use atamura_okk.Pipeline.Rows.{RowStep, Evolves, row_updates, premise}
use atamura_okk.Pipeline.System.{System, Step, Reach}
use atamura_okk.Pipeline.Keys.{HasKeys}
use atamura_okk.Pipeline.Tracks.Steps.{flags, Step-Moves, Reach-HasKeys}

-- NEW and SKIPPED are the statuses that the scope rule may still change.
abbrev pub is_open : CallStatus → Bool
is_open CallStatus.new = true
is_open CallStatus.skipped = true
is_open _ = false

-- Statuses of a call whose recording is in object storage.
abbrev pub needs_audio : CallStatus → Bool
needs_audio CallStatus.downloaded = true
needs_audio CallStatus.transcribing = true
needs_audio CallStatus.transcribed = true
needs_audio CallStatus.scoring = true
needs_audio CallStatus.scored = true
needs_audio CallStatus.pending_kk = true
needs_audio _ = false

-- Statuses of a call that has a transcript.
abbrev pub needs_transcript : CallStatus → Bool
needs_transcript CallStatus.transcribed = true
needs_transcript CallStatus.scoring = true
needs_transcript CallStatus.scored = true
needs_transcript _ = false

abbrev pub is_skipped : CallStatus → Bool
is_skipped CallStatus.skipped = true
is_skipped _ = false

pub record IsRowOk (t : Bool) (c : Call) : Type 0 where
  -- `claimed_at` is set exactly while the call is in flight.
  pub claim_held : is_some c.claimed_at ≡ in_flight c.status
  -- A call past the scope rule is analyzable.
  pub in_scope : is_open c.status ≡ false → c.analyzable ≡ true
  -- A skip reason stands exactly on skipped calls, and those are not analyzable.
  pub reason_given : is_some c.skip_reason ≡ is_skipped c.status
  pub not_analyzed : c.status ≡ CallStatus.skipped → c.analyzable ≡ false
  -- The artifacts that a status promises are there.
  pub audio_stored : needs_audio c.status ≡ true → is_present c.audio_object_key ≡ true
  pub audio_behind : t ≡ true → is_present c.audio_object_key ≡ true
  pub text_stored : needs_transcript c.status ≡ true → t ≡ true

-- The same for what a primary key finds: where no call is, no transcript is.
abbrev pub IsOk : Bool → Option Call → Type 0
IsOk t none = t ≡ false
IsOk t (some c) = IsRowOk t c

-- An object key is never the empty text.
object_key-ne-empty : (is_alnum : Char → Bool) (id : String) → object_key is_alnum id ≢ ""
unfolding object_key
object_key-ne-empty is_alnum id e =
    omega (arith, ap len e, len-append "calls/" (sanitize is_alnum id ++ ".mp3"))

object_key_present :
    (is_alnum : Char → Bool) (id : String) → is_present (some (object_key is_alnum id)) ≡ true
object_key_present is_alnum id =
    ground (arith, eq_iff (object_key is_alnum id) "", object_key-ne-empty is_alnum id)

module _ (s : Settings) where
  RowStep-IsRowOk : {t t' : Bool} {c c' : Call} → RowStep s t t' c c' → IsRowOk t c → IsRowOk t' c'
  unfolding row_updates
  RowStep-IsRowOk {c = c} (RowStep.downloaded is_alnum stored a e) h =
      ground (arith, object_key_present is_alnum c.bitrix_call_id)
  RowStep-IsRowOk r h = ground (arith, premise r)

  Evolves-IsOk : {t t' : Bool} {o o' : Option Call} → Evolves s t t' o o' → IsOk t o → IsOk t' o'
  Evolves-IsOk (Evolves.absent e) h = cc
  Evolves-IsOk (Evolves.appears now i f e) h = unfold inserted in ground arith
  Evolves-IsOk (Evolves.row st) h = RowStep-IsRowOk st h

  abbrev pub IsSound : Db → Type 0
  IsSound db = (j : ℕ) → IsOk (flags db j) (get j db.calls)

  Step-IsSound :
      {sys sys' : System} → Step s sys sys' → HasKeys sys.db → IsSound sys.db → IsSound sys'.db
  Step-IsSound st keys h j = Evolves-IsOk ((Step-Moves s st keys).1 j) (h j)

  -- In every state that is reachable as long as no requalification pass flushes a call that has changed
  -- since the pass read it, every row of `calls` is consistent: a claim time stands exactly on
  -- in-flight calls, a skip reason exactly on skipped ones, calls past the scope rule are
  -- analyzable, and each status has the artifacts that it promises.
  pub Reach-IsSound :
      {sys : System} → Reach s sys → (j : ℕ) → IsOk (flags sys.db j) (get j sys.db.calls)
  unfolding get has_transcript
  Reach-IsSound Reach.start j = refl
  Reach-IsSound (Reach.next r st) j = Step-IsSound st (Reach-HasKeys s r) (Reach-IsSound r) j
