-- ===== src/Ops/Requeue.antt =====
-- The operator's bulk requeues: `requeue_pending_kk` (AtamuraOKK/transcription/worker.py) and
-- `requeue_scored_for_relabel` (AtamuraOKK/scoring/worker.py).
use atamura_okk.Base.{
  ℕ, Bool, false, ◌&&◌, not, ◌||◌, Option, none, some, List, take, select, mem, length,
}
use atamura_okk.Store.{CallStatus, Call, Db, status_eq, update_where, ids}

-- The query's optional LIMIT.
unfoldable pub limited : Option ℕ → List Call → List Call
limited none rows = rows
limited (some n) rows = take n rows

abbrev pub requeued_row : CallStatus → Call → Call
requeued_row status c = record c { status = status; error = none; claimed_at = none }

-- `UPDATE … WHERE id IN (…)`, with the number of ids.
abbrev requeue_ids : CallStatus → List Call → Db → Db × ℕ
requeue_ids status rows db = (
  record db { calls = update_where (λ c. mem c.id (ids rows)) (requeued_row status) db.calls },
  length rows,
)

abbrev pub is_parked : Call → Bool
is_parked c = status_eq c.status CallStatus.pending_kk

unfoldable pub requeue_pending_kk : Option ℕ → Db → Db × ℕ
unfolding limited
requeue_pending_kk limit db =
    requeue_ids CallStatus.downloaded (limited limit (select is_parked db.calls)) db

-- `Call.is_stereo.is_(True)`
abbrev is_stereo_call : Call → Bool
is_stereo_call c = elim c.is_stereo [ none ↦ false | some b ↦ b ]

abbrev pub is_relabelled : Bool → Call → Bool
is_relabelled stereo_only c =
    status_eq c.status CallStatus.scored && (not stereo_only || is_stereo_call c)

unfoldable pub requeue_scored_for_relabel : Option ℕ → Bool → Db → Db × ℕ
unfolding limited
requeue_scored_for_relabel limit stereo_only db =
    requeue_ids CallStatus.transcribed (limited limit (select (is_relabelled stereo_only) db.calls))
      db
