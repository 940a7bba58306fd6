-- ===== src/Pipeline/System.antt =====
-- The transition system. Each constructor of `Step` is one committed transaction of the source;
-- every choice of the environment (time, locked rows, Bitrix, engines, models, the broker's
-- deliveries) is an argument. A task is in `tasks` from its first transaction on; it may end, or
-- be lost in a crash, at any later time.
-- `refresh_qualification` waits for Bitrix, for minutes, between its query and its flush and holds no
-- lock. The system has those of its passes that are undisturbed: the rows that the query gave are, at
-- the flush, as they were read, while every other row may have changed. What a disturbed pass does is
-- in Ingestion/Race. Every other transaction is one step: it reads and writes the columns of the life
-- cycle with no wait for an outside service in between, and the moment from the query to the flush of
-- those that do not lock their rows is left out.
use Prim.Native.Char.{Char}
use mathlib.Core.List.{Memᴰ}
use atamura_okk.Base.{ℕ, ◌≡◌, String, Bool, Option, none, some, List, [], ◌∷◌, ◌++◌, All}
use atamura_okk.Store.{ScoreBatch, Call, Db, get}
use atamura_okk.Settings.{Settings}
use atamura_okk.Dispatch.Claim.{Stage, stages, claim_ready, reclaim_stale}
use atamura_okk.Ingestion.Scope.{
  Qualification, IngestStats, recompute_client, requalifiable, refresh_qualification,
}
use atamura_okk.Ingestion.Upsert.{CallFields, upsert_call, attribute_manager}
use atamura_okk.Ops.Retry.{requeue_failed}
use atamura_okk.Ops.Requeue.{requeue_pending_kk, requeue_scored_for_relabel}
use atamura_okk.Stages.Transcribe.{Transcribed}
use atamura_okk.Stages.Score.{Assessed, Env}
use atamura_okk.Stages.Batch
use atamura_okk.Stages.Tasks.{
  Task, fetching, transcribing, without_audio, assessing, Fetched, start_download, finish_download,
  start_transcribe, finish_transcribe, finish_without_audio, start_score, finish_score,
}

pub record System : Type 0 where
  pub db : Db
  pub tasks : List Task

abbrev pub initial : System
initial = record {
  db = record { calls = []; transcripts = []; scores = []; batches = []; managers = [] };
  tasks = [];
}

-- A transaction that touches the database only.
pub data Transaction (s : Settings) (db : Db) : Db → Type 0 where
  upserted : (now : ℕ) (f : CallFields) → Transaction s db (upsert_call now f db)
  attributed :
      (user manager : ℕ)
      → Transaction s db (record db { calls = attribute_manager user manager db.calls })
  recomputed :
      (quals : String → Qualification) (cats : String → Option String) (key : String)
      (st : IngestStats)
      → Transaction s db (recompute_client s quals cats key db st).0
  requalified :
      (now : ℕ) (quals : String → Qualification) (cats : String → Option String) (limit : ℕ)
      (read : List Call)
      → All (λ c. get c.id db.calls ≡ some c) (requalifiable now limit read)
      → Transaction s db (refresh_qualification now s quals cats limit read db).0
  claimed :
      (now : ℕ) (locked : ℕ → Bool) {st : Stage}
      → Memᴰ st (stages s)
      → (limit : ℕ) (since until : Option ℕ)
      → Transaction s db (claim_ready now locked st.ready st.in_flight limit since until db).0
  reclaimed :
      (now : ℕ) {st : Stage}
      → Memᴰ st (stages s)
      → Transaction s db (reclaim_stale now st.in_flight st.ready st.stale_seconds db).0
  requeued :
      (updated_at : ℕ → ℕ) (limit : ℕ) → Transaction s db (requeue_failed updated_at s limit db).0
  unparked : (limit : Option ℕ) → Transaction s db (requeue_pending_kk limit db).0
  relabelled :
      (limit : Option ℕ) (stereo_only : Bool)
      → Transaction s db (requeue_scored_for_relabel limit stereo_only db).0
  batch_failed : (e : String) (i : ℕ) → Transaction s db (Batch.fail e i db)
  batch_released : (i : ℕ) → Transaction s db (Batch.release i db)
  batch_heartbeat : (now : ℕ) (is : List ℕ) → Transaction s db (Batch.heartbeat now is db)
  batch_scored :
      (env : Env) (i : ℕ) (message : Assessed)
      → Transaction s db (Batch.persist_result env i message db).0
  batches_saved : (rows : List ScoreBatch) → Transaction s db (record db { batches = rows })

-- The two transactions of a task. `Ends t db db'`: the last transaction of the task `t`.
pub data Ends : Task → Db → Db → Type 0 where
  download :
      (is_alnum : Char → Bool) (i : ℕ) (fetched : Fetched) (db : Db)
      → Ends (fetching i) db (finish_download is_alnum i fetched db).0
  transcribe :
      (handles_kazakh : Bool) (i : ℕ) (key : String) (outcome : Transcribed) (db : Db)
      → Ends (transcribing i key) db (finish_transcribe handles_kazakh i outcome db).0
  no_audio : (i : ℕ) (db : Db) → Ends (without_audio i) db (finish_without_audio i db).0
  score :
      (env : Env) (i : ℕ) (assessed : Assessed) (db : Db)
      → Ends (assessing i) db (finish_score env i assessed db).0

abbrev pub started : Option Task → List Task → List Task
started none tasks = tasks
started (some t) tasks = t ∷ tasks

pub data Step (s : Settings) (sys : System) : System → Type 0 where
  transaction : {db' : Db} → Transaction s sys.db db' → Step s sys (record sys { db = db' })
  begin_download :
      (i : ℕ) → Step s sys (record sys { tasks = started (start_download i sys.db) sys.tasks })
  begin_transcribe :
      (i : ℕ) → Step s sys (record sys { tasks = started (start_transcribe i sys.db) sys.tasks })
  begin_score :
      (i : ℕ)
      → Step s sys (record {
        db = (start_score i sys.db).0;
        tasks = started (start_score i sys.db).1 sys.tasks;
      })
  finish :
      (before behind : List Task) (t : Task) {db' : Db}
      → sys.tasks ≡ before ++ (t ∷ behind)
      → Ends t sys.db db'
      → Step s sys (record { db = db'; tasks = before ++ behind })
  crash :
      (before behind : List Task) (t : Task)
      → sys.tasks ≡ before ++ (t ∷ behind)
      → Step s sys (record sys { tasks = before ++ behind })

pub data Reach (s : Settings) : System → Type 0 where
  start : Reach s initial
  next : {sys sys' : System} → Reach s sys → Step s sys sys' → Reach s sys'

-- Any number of steps from a given state on.
pub data Run (s : Settings) (sys : System) : System → Type 0 where
  here : Run s sys sys
  then : {sys' sys'' : System} → Run s sys sys' → Step s sys' sys'' → Run s sys sys''

pub Reach-Run : {s : Settings} {sys sys' : System} → Reach s sys → Run s sys sys' → Reach s sys'
Reach-Run r Run.here = r
Reach-Run r (Run.then run st) = Reach.next (Reach-Run r run) st
