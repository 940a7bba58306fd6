-- ===== src/Drivers/Submit.antt =====
-- AtamuraOKK/scoring/batch.py, `submit_pending` and `_build_requests`. The request text is not
-- modelled: a request stands for the call that it covers.
use atamura_okk.Base.{
  ℕ, zero, suc, ◌+◌, ◌-◌, String, Bool, true, false, Option, none, some, List, [], ◌∷◌, ◌++◌,
  if◌then◌else◌, mem, length, max,
}
use atamura_okk.Store.{CallStatus, ScoreBatch, Db, has_transcript, ids}
use atamura_okk.Dispatch.Claim.{claim_ready}
use atamura_okk.Stages.Batch.{fail, release}

pub record SubmitStats : Type 0 where
  pub claimed : ℕ
  pub submitted : ℕ
  pub batches : ℕ
  pub failed : ℕ

-- The rows of the outer join, whether each has a transcript, in the order of the table.
abbrev pub joined : List ℕ → Db → List (ℕ × Bool)
joined call_ids db = rows (ids db.calls)
  where
    rows : List ℕ → List (ℕ × Bool)
    rows [] = []
    rows (i ∷ is) =
        if mem i call_ids then (i, has_transcript i db.transcripts) ∷ rows is else rows is

-- The loop of `_build_requests`: the covered ids, and how many calls failed.
unfoldable pub cover : List (ℕ × Bool) → Db → ℕ → Db × List ℕ × ℕ
unfolding fail
cover [] db failed = (db, [], failed)
cover ((i, true) ∷ rows) db failed =
    let (db', covered, failed') = cover rows db failed in (db', i ∷ covered, failed')
cover ((i, false) ∷ rows) db failed = cover rows (fail "no transcript" i db) (failed + 1)

unfoldable pub build_requests : List ℕ → Db → Db × List ℕ × ℕ
unfolding cover
build_requests call_ids db = cover (joined call_ids db) db 0

unfoldable pub release_all : List ℕ → Db → Db
unfolding release
release_all [] db = db
release_all (i ∷ is) db = release_all is (release i db)

-- The sequence of the batches' primary key.
unfoldable pub next_batch_id : List ScoreBatch → ℕ
next_batch_id [] = 1
next_batch_id (b ∷ bs) = max (suc b.id) (next_batch_id bs)

-- One chunk: the service accepts it under an id, or refuses it.
unfoldable pub submit_chunk : String → List ℕ → Option String → Db × SubmitStats → Db × SubmitStats
unfolding release_all next_batch_id
submit_chunk version chunk none (db, st) =
    (release_all chunk db, record st { failed = st.failed + length chunk })
submit_chunk version chunk (some provider) (db, st) = (
  record db {
    batches =
        db.batches
        ++ (record {
          id = next_batch_id db.batches;
          provider_batch_id = provider;
          is_open = true;
          call_ids = chunk;
          rubric_version = version;
          succeeded = 0;
          errored = 0;
        }
            ∷ []);
  },
  record st { submitted = st.submitted + length chunk; batches = st.batches + 1 },
)

-- `requests[start : start + size]` for each start: `room` is what is left of the current chunk.
abbrev pub onto : ℕ → List (List ℕ) → List (List ℕ)
onto i [] = (i ∷ []) ∷ []
onto i (c ∷ cs) = (i ∷ c) ∷ cs

unfoldable pub chunks_from : ℕ → ℕ → List ℕ → List (List ℕ)
chunks_from size room [] = []
chunks_from size (suc room) (i ∷ is) = onto i (chunks_from size room is)
chunks_from size zero (i ∷ is) = [] ∷ onto i (chunks_from size (size - 1) is)

unfoldable pub submit_chunks :
    String → (List ℕ → Option String) → List (List ℕ) → Db × SubmitStats → Db × SubmitStats
unfolding submit_chunk
submit_chunks version create [] acc = acc
submit_chunks version create (c ∷ cs) acc =
    submit_chunks version create cs (submit_chunk version c (create c) acc)

-- `submit_pending`. `until` is `report_today_start()`, or nothing under `include_today`.
unfoldable pub submit_pending :
    ℕ
    → (ℕ → Bool)
    → ℕ
    → String
    → (List ℕ → Option String)
    → ℕ
    → Option ℕ
    → Option ℕ
    → Db
    → Db × SubmitStats
unfolding build_requests chunks_from submit_chunks
submit_pending now locked size version create limit since until db =
    let (db1, call_ids) =
      claim_ready now locked CallStatus.transcribed CallStatus.scoring limit since until db in
    let (db2, covered, failed) = build_requests call_ids db1 in
    submit_chunks version create (chunks_from size size covered)
      (db2, record { claimed = length call_ids; submitted = 0; batches = 0; failed = failed })
