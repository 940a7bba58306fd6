-- ===== src/Drivers/Batches.antt =====
-- AtamuraOKK/scoring/batch.py: the loops that submit and drain message batches, each as it runs
-- when no other process writes in between. The batch service is a parameter: what it answers to a
-- submission and to a poll.
use atamura_okk.Base.{
  ℕ, ◌+◌, String, false, Option, none, some, List, [], ◌∷◌, ◌==◌, if◌then◌else◌, select, mem,
  length,
}
use atamura_okk.Store.{ScoreBatch, Db}
use atamura_okk.Stages.Score.{Env, Assessed}
use atamura_okk.Stages.Batch.{fail, release, heartbeat, persist_result}

pub data BatchResult : Type 0 where
  succeeded : (message : Assessed) → BatchResult
  errored : (error : String) → BatchResult
  never_scored : BatchResult

-- One line of an ended batch; `call_id` is what `_call_id` reads off its `custom_id`.
pub record BatchEntry : Type 0 where
  pub call_id : Option ℕ
  pub result : BatchResult

-- What a drain has done so far.
pub record Drained : Type 0 where
  pub db : Db
  pub scored : ℕ
  pub failed : ℕ
  pub seen : List ℕ

-- The body of the loop over the results.
unfoldable pub drain_one : Env → ℕ → BatchResult → Drained → Drained
unfolding fail release persist_result
drain_one env i (succeeded message) d =
    let (db', scored, sent) = persist_result env i message d.db in
    record {
      db = db';
      scored = if scored then d.scored + 1 else d.scored;
      failed = if scored then d.failed else d.failed + 1;
      seen = i ∷ d.seen;
    }
drain_one env i (errored e) d = record {
  db = fail e i d.db;
  scored = d.scored;
  failed = d.failed + 1;
  seen = i ∷ d.seen;
}
drain_one env i never_scored d = record {
  db = release i d.db;
  scored = d.scored;
  failed = d.failed + 1;
  seen = i ∷ d.seen;
}

unfoldable pub drain_entries : Env → List BatchEntry → Drained → Drained
unfolding drain_one
drain_entries env [] d = d
drain_entries env (e ∷ es) d = elim e.call_id [
  | none ↦ drain_entries env es d
  | some i ↦ drain_entries env es (drain_one env i e.result d)
]

-- `set(call_ids)`
unfoldable pub distinct : List ℕ → List ℕ
distinct [] = []
distinct (i ∷ is) = let rest = distinct is in if mem i is then rest else i ∷ rest

abbrev pub release_one : ℕ → Drained → Drained
release_one i d = record d { db = release i d.db; failed = d.failed + 1 }

-- `for call_id in set(call_ids) - seen`
unfoldable pub release_unseen : List ℕ → List ℕ → Drained → Drained
release_unseen [] seen d = d
release_unseen (i ∷ is) seen d =
    if mem i seen then release_unseen is seen d else release_unseen is seen (release_one i d)

abbrev pub nothing_drained : Db → Drained
nothing_drained db = record { db = db; scored = 0; failed = 0; seen = [] }

-- `_drain_results`
unfoldable pub drain_results : Env → List ℕ → List BatchEntry → Db → Drained
unfolding drain_entries release_unseen distinct
drain_results env call_ids entries db =
    let d = drain_entries env entries (nothing_drained db) in
    release_unseen (distinct call_ids) d.seen d

-- The answer of the service to `retrieve`.
pub data Retrieved : Type 0 where
  unreachable : Retrieved
  running : Retrieved
  ended : List BatchEntry → Retrieved

pub record PollStats : Type 0 where
  pub open_batches : ℕ
  pub ended : ℕ
  pub scored : ℕ
  pub failed : ℕ

-- `row.status = "done"` with the counters, in the row with the key.
unfoldable pub close_batch : ℕ → ℕ → ℕ → List ScoreBatch → List ScoreBatch
close_batch i scored failed [] = []
close_batch i scored failed (b ∷ bs) =
    (if b.id == i then record b { is_open = false; succeeded = scored; errored = failed } else b)
    ∷ close_batch i scored failed bs

-- The body of the loop over the open batches.
unfoldable pub poll_one : Env → ℕ → ScoreBatch → Retrieved → Db × PollStats → Db × PollStats
unfolding drain_results heartbeat close_batch
poll_one env now b unreachable (db, st) = (heartbeat now b.call_ids db, st)
poll_one env now b running (db, st) = (heartbeat now b.call_ids db, st)
poll_one env now b (ended entries) (db, st) =
    let d = drain_results env b.call_ids entries db in
    (
      record d.db { batches = close_batch b.id d.scored d.failed d.db.batches },
      record st {
        ended = st.ended + 1;
        scored = st.scored + d.scored;
        failed = st.failed + d.failed;
      },
    )

unfoldable pub poll_list :
    Env → ℕ → (String → Retrieved) → List ScoreBatch → Db × PollStats → Db × PollStats
unfolding poll_one
poll_list env now retrieve [] acc = acc
poll_list env now retrieve (b ∷ bs) acc =
    poll_list env now retrieve bs (poll_one env now b (retrieve b.provider_batch_id) acc)

-- `poll_batches`
unfoldable pub poll_batches : Env → ℕ → (String → Retrieved) → Db → Db × PollStats
unfolding poll_list
poll_batches env now retrieve db =
    let pending = select (λ b. b.is_open) db.batches in
    poll_list env now retrieve pending
      (db, record { open_batches = length pending; ended = 0; scored = 0; failed = 0 })
