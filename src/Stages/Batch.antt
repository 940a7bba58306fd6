-- ===== src/Stages/Batch.antt =====
-- AtamuraOKK/scoring/batch.py: the same work through asynchronous message batches. The batch
-- service is a parameter.
use atamura_okk.Base.{ℕ, String, ◌&&◌, none, some, List, mem}
use atamura_okk.Store.{CallStatus, Call, Db, status_eq, put, update_where}
use atamura_okk.Scoring.Assemble.{Assembled, payload, omitted, assemble}
use atamura_okk.Base.{Bool, Option, true, false}
use atamura_okk.Store.{claimed}
use atamura_okk.Stages.Score.{Env, Assessed, scoring_error, assessment, settle, fail_row}

-- A row is settled only while its claim holds.
unfoldable pub if_claimed : (Call → Call) → ℕ → Db → List Call
if_claimed f i db = elim (claimed CallStatus.scoring i db) [
  | none ↦ db.calls
  | some c ↦ put (f c) db.calls
]

-- `_fail`
unfoldable pub fail : String → ℕ → Db → Db
unfolding if_claimed
fail e i db = record db { calls = if_claimed (fail_row e) i db }

abbrev pub released_row : Call → Call
released_row c = record c { status = CallStatus.transcribed; claimed_at = none }

-- `_release`
unfoldable pub release : ℕ → Db → Db
unfolding if_claimed
release i db = record db { calls = if_claimed (released_row) i db }

abbrev pub heartbeat_row : ℕ → Call → Call
heartbeat_row now c = record c { claimed_at = some now }

-- `_heartbeat`
unfoldable pub heartbeat : ℕ → List ℕ → Db → Db
heartbeat now call_ids db = record db {
  calls =
      update_where (λ c. mem c.id call_ids && status_eq c.status CallStatus.scoring)
        (heartbeat_row now) db.calls;
}

abbrev is_assembled : Assembled → Bool
is_assembled (payload p) = true
is_assembled (omitted missing) = false

-- `_persist_result`: `scoring_error` is a message that `parse_response` rejects. The flag says
-- whether the call reached SCORED; with it, the user that was alerted.
unfoldable pub persist_result : Env → ℕ → Assessed → Db → Db × Bool × Option ℕ
unfolding fail settle
persist_result env i (scoring_error e) db = (fail e i db, false, none)
persist_result env i (assessment r) db = elim (claimed CallStatus.scoring i db) [
  | none ↦ (db, false, none)
  | some c ↦
      let (db', sent) = settle env (assessment r) c db in
      (db', is_assembled (assemble r env.rubric c.client_category), sent)
]
