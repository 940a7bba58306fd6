-- ===== src/Drivers/Commits.antt =====
-- The loops of the drivers are made of the pipeline's transactions: whatever holds along every run
-- of the transition system holds along theirs.
use mathlib.Core.List.{Memᴰ}
use atamura_okk.Base.{
  ℕ, ◌+◌, refl, String, Bool, true, false, Option, none, some, List, [], ◌∷◌, inl, inr, Bool-cases,
  Option-cases, mem, select, length,
}
use atamura_okk.Store.{CallStatus, ScoreBatch, Db}
use atamura_okk.Settings.{Settings}
use atamura_okk.Dispatch.Claim.{Stage, stages, claim_ready, reclaim_stages, reclaim_all_stale}
use atamura_okk.Ingestion.Scope.{Qualification, IngestStats, recompute_scope, no_stats}
use atamura_okk.Stages.Score.{Env}
use atamura_okk.Pipeline.System.{System, Transaction, Step, Run, Reach, Reach-Run}
use atamura_okk.Drivers.Batches.{
  BatchResult, succeeded, errored, never_scored, BatchEntry, Drained, drain_one, drain_entries,
  distinct, release_one, release_unseen, nothing_drained, drain_results, Retrieved, unreachable,
  running, ended, PollStats, poll_one, poll_list, poll_batches,
}
use atamura_okk.Drivers.Submit.{
  SubmitStats, joined, cover, build_requests, release_all, submit_chunk, chunks_from, submit_chunks,
  submit_pending,
}
use atamura_okk.Drivers.Tick.{
  is_ingested, StatRow, Pass, ingest_one, ingest_rows, attribute_managers, run_ingestion,
  claim_stages, dispatch_tick,
}

-- Any number of transactions, one after the other.
pub data Commits (s : Settings) (db : Db) : Db → Type 0 where
  none_yet : Commits s db db
  commit : {db' db'' : Db} → Commits s db db' → Transaction s db' db'' → Commits s db db''

module _ {s : Settings} where
  pub Commits-Run :
      (sys : System) {db' : Db} → Commits s sys.db db' → Run s sys (record sys { db = db' })
  Commits-Run sys Commits.none_yet = Run.here
  Commits-Run sys (Commits.commit cs t) = Run.then (Commits-Run sys cs) (Step.transaction t)

  join : {a b c : Db} → Commits s a b → Commits s b c → Commits s a c
  join cs Commits.none_yet = cs
  join cs (Commits.commit ds t) = Commits.commit (join cs ds) t

  one : {a b : Db} → Transaction s a b → Commits s a b
  one t = Commits.commit Commits.none_yet t

  drain_one-Commits :
      (env : Env) (i : ℕ) (r : BatchResult) (d : Drained) → Commits s d.db (drain_one env i r d).db
  unfolding drain_one
  drain_one-Commits env i (succeeded message) d = one (Transaction.batch_scored env i message)
  drain_one-Commits env i (errored e) d = one (Transaction.batch_failed e i)
  drain_one-Commits env i never_scored d = one (Transaction.batch_released i)

  drain_entries-Commits :
      (env : Env) (es : List BatchEntry) (d : Drained) → Commits s d.db (drain_entries env es d).db
  unfolding drain_entries
  drain_entries-Commits env [] d = Commits.none_yet
  drain_entries-Commits env (e ∷ es) d = elim (Option-cases e.call_id) [
    | inl h ↦ rw (h, drain_entries) (drain_entries-Commits env es d)
    | inr (i, h) ↦
        rw (h, drain_entries)
          (join (drain_one-Commits env i e.result d)
            (drain_entries-Commits env es (drain_one env i e.result d)))
  ]

  release_unseen-Commits :
      (is seen : List ℕ) (d : Drained) → Commits s d.db (release_unseen is seen d).db
  unfolding release_unseen
  release_unseen-Commits [] seen d = Commits.none_yet
  release_unseen-Commits (i ∷ is) seen d = elim (Bool-cases (mem i seen)) [
    | inl e ↦ rw e (release_unseen-Commits is seen d)
    | inr e ↦ rw e (
        join (one (Transaction.batch_released i))
          (release_unseen-Commits is seen (release_one i d)))
  ]

  drain_results-Commits :
      (env : Env) (call_ids : List ℕ) (es : List BatchEntry) (db : Db)
      → Commits s db (drain_results env call_ids es db).db
  unfolding drain_results
  drain_results-Commits env call_ids es db =
      let d = drain_entries env es (nothing_drained db) in
      join (drain_entries-Commits env es (nothing_drained db))
        (release_unseen-Commits (distinct call_ids) d.seen d)

  poll_one-Commits :
      (env : Env) (now : ℕ) (b : ScoreBatch) (r : Retrieved) (acc : Db × PollStats)
      → Commits s acc.0 (poll_one env now b r acc).0
  unfolding poll_one
  poll_one-Commits env now b unreachable acc = one (Transaction.batch_heartbeat now b.call_ids)
  poll_one-Commits env now b running acc = one (Transaction.batch_heartbeat now b.call_ids)
  poll_one-Commits env now b (ended es) acc =
      Commits.commit (drain_results-Commits env b.call_ids es acc.0) (Transaction.batches_saved _)

  poll_list-Commits :
      (env : Env) (now : ℕ) (retrieve : String → Retrieved) (bs : List ScoreBatch)
      (acc : Db × PollStats)
      → Commits s acc.0 (poll_list env now retrieve bs acc).0
  unfolding poll_list
  poll_list-Commits env now retrieve [] acc = Commits.none_yet
  poll_list-Commits env now retrieve (b ∷ bs) acc =
      join (poll_one-Commits env now b (retrieve b.provider_batch_id) acc) (
        poll_list-Commits env now retrieve bs
          (poll_one env now b (retrieve b.provider_batch_id) acc))

  -- A poll of the open batches is a sequence of the pipeline's transactions.
  poll_batches-Commits :
      (env : Env) (now : ℕ) (retrieve : String → Retrieved) (db : Db)
      → Commits s db (poll_batches env now retrieve db).0
  unfolding poll_batches
  poll_batches-Commits env now retrieve db =
      let pending = select (λ b. b.is_open) db.batches in
      poll_list-Commits env now retrieve pending
        (db, record { open_batches = length pending; ended = 0; scored = 0; failed = 0 })

  cover-Commits :
      (rows : List (ℕ × Bool)) (db : Db) (failed : ℕ) → Commits s db (cover rows db failed).0
  unfolding cover
  cover-Commits [] db failed = Commits.none_yet
  cover-Commits ((i, true) ∷ rows) db failed = cover-Commits rows db failed
  cover-Commits ((i, false) ∷ rows) db failed =
      join (one (Transaction.batch_failed "no transcript" i)) (cover-Commits rows _ (failed + 1))

  release_all-Commits : (is : List ℕ) (db : Db) → Commits s db (release_all is db)
  unfolding release_all
  release_all-Commits [] db = Commits.none_yet
  release_all-Commits (i ∷ is) db =
      join (one (Transaction.batch_released i)) (release_all-Commits is _)

  submit_chunk-Commits :
      (version : String) (chunk : List ℕ) (o : Option String) (acc : Db × SubmitStats)
      → Commits s acc.0 (submit_chunk version chunk o acc).0
  unfolding submit_chunk
  submit_chunk-Commits version chunk none acc = release_all-Commits chunk acc.0
  submit_chunk-Commits version chunk (some provider) acc = one (Transaction.batches_saved _)

  submit_chunks-Commits :
      (version : String) (create : List ℕ → Option String) (cs : List (List ℕ))
      (acc : Db × SubmitStats)
      → Commits s acc.0 (submit_chunks version create cs acc).0
  unfolding submit_chunks
  submit_chunks-Commits version create [] acc = Commits.none_yet
  submit_chunks-Commits version create (c ∷ cs) acc =
      join (submit_chunk-Commits version c (create c) acc)
        (submit_chunks-Commits version create cs (submit_chunk version c (create c) acc))

  -- A submission is a sequence of the pipeline's transactions.
  submit_pending-Commits :
      (now : ℕ) (locked : ℕ → Bool) (size : ℕ) (version : String) (create : List ℕ → Option String)
      (limit : ℕ) (since until : Option ℕ) (db : Db)
      → Commits s db (submit_pending now locked size version create limit since until db).0
  unfolding submit_pending build_requests
  submit_pending-Commits now locked size version create limit since until db =
      let (db1, call_ids) =
        claim_ready now locked CallStatus.transcribed CallStatus.scoring limit since until db in
      let (db2, covered, failed) = cover (joined call_ids db1) db1 0 in
      join
        (one (
          Transaction.claimed now locked (Memᴰ.tail (Memᴰ.tail (Memᴰ.head refl))) limit since
            until))
        (join (cover-Commits (joined call_ids db1) db1 0) (
          submit_chunks-Commits version create (chunks_from size size covered) (
            db2,
            record { claimed = length call_ids; submitted = 0; batches = 0; failed = failed },
          )))

module _ (s : Settings) where
  reclaim_stages-Commits :
      (now : ℕ) (sts : List Stage)
      → ((st : Stage) → Memᴰ st sts → Memᴰ st (stages s))
      → (db : Db) → Commits s db (reclaim_stages now sts db).0
  unfolding reclaim_stages
  reclaim_stages-Commits now [] known db = Commits.none_yet
  reclaim_stages-Commits now (st ∷ sts) known db =
      join (one (Transaction.reclaimed now (known st (Memᴰ.head refl))))
        (reclaim_stages-Commits now sts (λ t m. known t (Memᴰ.tail m)) _)

  ingest_one-Commits :
      (now : ℕ) (row : StatRow) (p : Pass) → Commits s p.db (ingest_one now s row p).db
  unfolding ingest_one
  ingest_one-Commits now row p = elim (Bool-cases (is_ingested s row)) [
    | inl e ↦ rw e (one (Transaction.upserted now row.fields))
    | inr e ↦ rw e Commits.none_yet
  ]

  ingest_rows-Commits :
      (now : ℕ) (rows : List StatRow) (p : Pass) → Commits s p.db (ingest_rows now s rows p).db
  unfolding ingest_rows
  ingest_rows-Commits now [] p = Commits.none_yet
  ingest_rows-Commits now (row ∷ rows) p =
      join (ingest_one-Commits now row p) (ingest_rows-Commits now rows (ingest_one now s row p))

  attribute-Commits :
      (manager_of : ℕ → ℕ) (us : List ℕ) (db : Db)
      → Commits s db (attribute_managers manager_of us db)
  unfolding attribute_managers
  attribute-Commits manager_of [] db = Commits.none_yet
  attribute-Commits manager_of (u ∷ us) db =
      join (one (Transaction.attributed u (manager_of u))) (attribute-Commits manager_of us _)

  recompute-Commits :
      (quals : String → Qualification) (cats : String → Option String) (keys : List String)
      (db : Db) (st : IngestStats)
      → Commits s db (recompute_scope s quals cats keys db st).0
  unfolding recompute_scope
  recompute-Commits quals cats [] db st = Commits.none_yet
  recompute-Commits quals cats (key ∷ keys) db st =
      join (one (Transaction.recomputed quals cats key st)) (recompute-Commits quals cats keys _ _)

  claim_stages-Commits :
      (now : ℕ) (locked : ℕ → Bool) (today : ℕ) (sts : List Stage)
      → ((st : Stage) → Memᴰ st sts → Memᴰ st (stages s))
      → (db : Db) → Commits s db (claim_stages now locked s today sts db).0
  unfolding claim_stages
  claim_stages-Commits now locked today [] known db = Commits.none_yet
  claim_stages-Commits now locked today (st ∷ sts) known db =
      join
        (one (Transaction.claimed now locked (known st (Memᴰ.head refl)) s.claim_batch_size _ none))
        (claim_stages-Commits now locked today sts (λ t m. known t (Memᴰ.tail m)) _)

  module _ (now : ℕ) (locked : ℕ → Bool) (today : ℕ) (quals : String → Qualification)
      (cats : String → Option String) (manager_of : ℕ → ℕ) where
    run_ingestion-Commits :
        (rows : List StatRow) (db : Db)
        → Commits s db (run_ingestion now s quals cats manager_of rows db).0
    unfolding run_ingestion
    run_ingestion-Commits rows db =
        let start : Pass = record { db = db; client_keys = []; user_ids = []; upserted = 0 } in
        let p = ingest_rows now s rows start in
        join (ingest_rows-Commits now rows start) (
          join (attribute-Commits manager_of p.user_ids p.db)
            (recompute-Commits quals cats p.client_keys _ no_stats))

    dispatch_tick-Commits :
        (listed : Option (List StatRow)) (db : Db)
        → Commits s db (dispatch_tick now locked s today quals cats manager_of listed db).0
    unfolding dispatch_tick reclaim_all_stale
    dispatch_tick-Commits none db =
        join (reclaim_stages-Commits now (stages s) (λ st m. m) db)
          (claim_stages-Commits now locked today (stages s) (λ st m. m) _)
    dispatch_tick-Commits (some rows) db =
        join (reclaim_stages-Commits now (stages s) (λ st m. m) db) (
          join (run_ingestion-Commits rows _)
            (claim_stages-Commits now locked today (stages s) (λ st m. m) _))

-- From a reachable state, a tick of the dispatcher, a submission of batches and a poll of the open
-- batches each end in a reachable state.
drivers-Reach :
    (s : Settings) (sys : System)
    → Reach s sys
    → (now : ℕ) (locked : ℕ → Bool) (today : ℕ) (quals : String → Qualification)
      (cats : String → Option String) (manager_of : ℕ → ℕ) (listed : Option (List StatRow))
      (size : ℕ) (create : List ℕ → Option String) (limit : ℕ) (since until : Option ℕ) (env : Env)
      (retrieve : String → Retrieved)
    → let go : Db → System = λ db. record sys { db = db } in
      Reach s (go (dispatch_tick now locked s today quals cats manager_of listed sys.db).0)
      × Reach s
          (go (submit_pending now locked size env.rubric.version create limit since until sys.db).0)
      × Reach s (go (poll_batches env now retrieve sys.db).0)
drivers-Reach s sys r now locked today quals cats manager_of listed size create limit since until
      env retrieve =
    (
      Reach-Run r (
          Commits-Run sys
            (dispatch_tick-Commits s now locked today quals cats manager_of listed sys.db)),
      Reach-Run r (
          Commits-Run sys (
            submit_pending-Commits now locked size env.rubric.version create limit since until
              sys.db)),
      Reach-Run r (Commits-Run sys (poll_batches-Commits env now retrieve sys.db)),
    )
