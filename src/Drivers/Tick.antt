-- ===== src/Drivers/Tick.antt =====
-- AtamuraOKK/dispatch/dispatcher.py, `dispatch_tick`, and the ingestion pass that it runs
-- (`run_ingestion`, AtamuraOKK/ingestion/service.py). What Bitrix lists, and what it knows of users
-- and clients, is a parameter. The broker's queues are the list of what was enqueued.
use atamura_okk.Base.{
  ℕ, zero, suc, ◌+◌, String, Bool, true, false, ◌&&◌, Option, none, some, List, [], ◌∷◌, ◌++◌,
  if◌then◌else◌, leb, str_eq, is_some, non_empty, mem,
}
use atamura_okk.Store.{Db}
use atamura_okk.Settings.{Settings}
use atamura_okk.Dispatch.Claim.{Stage, auto_since, stages, claim_ready, reclaim_all_stale}
use atamura_okk.Ingestion.Scope.{Qualification, IngestStats, no_stats, recompute_scope}
use atamura_okk.Ingestion.Upsert.{CallFields, upsert_call, attribute_manager}

-- One row of `voximplant.statistic.get`: the columns that the filter reads, and the mapped fields.
pub record StatRow : Type 0 where
  pub succeeded : Bool
  pub duration : ℕ
  pub recorded : Bool
  pub fields : CallFields

-- `_is_answered_recorded`
abbrev pub is_answered_recorded : Settings → StatRow → Bool
is_answered_recorded s row =
    row.succeeded && (leb s.ingest_min_duration_sec row.duration && row.recorded)

-- `client_keys` and `user_ids` are sets.
abbrev add_key : Option String → List String → List String
add_key none keys = keys
add_key (some k) keys = if holds keys then keys else k ∷ keys
  where
    holds : List String → Bool
    holds [] = false
    holds (x ∷ xs) = if str_eq x k then true else holds xs

abbrev add_user : Option ℕ → List ℕ → List ℕ
add_user none users = users
add_user (some zero) users = users
add_user (some (suc u)) users = if mem (suc u) users then users else suc u ∷ users

-- What the loop over the rows carries.
pub record Pass : Type 0 where
  pub db : Db
  pub client_keys : List String
  pub user_ids : List ℕ
  pub upserted : ℕ

-- The two `continue`s of the loop.
abbrev pub is_ingested : Settings → StatRow → Bool
is_ingested s row = is_answered_recorded s row && is_some (non_empty row.fields.client_key)

-- The body of the loop.
unfoldable pub ingest_one : ℕ → Settings → StatRow → Pass → Pass
unfolding upsert_call
ingest_one now s row p =
    if is_ingested s row
    then record {
      db = upsert_call now row.fields p.db;
      client_keys = add_key row.fields.client_key p.client_keys;
      user_ids = add_user row.fields.portal_user_id p.user_ids;
      upserted = p.upserted + 1;
    }
    else p

unfoldable pub ingest_rows : ℕ → Settings → List StatRow → Pass → Pass
unfolding ingest_one
ingest_rows now s [] p = p
ingest_rows now s (row ∷ rows) p = ingest_rows now s rows (ingest_one now s row p)

-- `_attribute_managers`: one UPDATE for each user; the manager's id is what the lookup gives.
unfoldable pub attribute_managers : (ℕ → ℕ) → List ℕ → Db → Db
unfolding attribute_manager
attribute_managers manager_of [] db = db
attribute_managers manager_of (u ∷ us) db =
    attribute_managers manager_of us
      (record db { calls = attribute_manager u (manager_of u) db.calls })

-- `run_ingestion` on the rows of the pass.
unfoldable pub run_ingestion :
    ℕ
    → Settings
    → (String → Qualification)
    → (String → Option String)
    → (ℕ → ℕ)
    → List StatRow
    → Db
    → Db × IngestStats
unfolding ingest_rows attribute_managers recompute_scope
run_ingestion now s quals cats manager_of rows db =
    let p =
      ingest_rows now s rows (record { db = db; client_keys = []; user_ids = []; upserted = 0 }) in
    recompute_scope s quals cats p.client_keys (attribute_managers manager_of p.user_ids p.db)
      no_stats

-- The loop over the stages: the claimed ids go to the stage's queue.
unfoldable pub claim_stages :
    ℕ → (ℕ → Bool) → Settings → ℕ → List Stage → Db → Db × List (String × ℕ)
unfolding claim_ready
claim_stages now locked s today [] db = (db, [])
claim_stages now locked s today (st ∷ sts) db =
    let since : Option ℕ = if st.today_only then auto_since s today else none in
    let (db1, call_ids) =
      claim_ready now locked st.ready st.in_flight s.claim_batch_size since none db in
    let (db2, later) = claim_stages now locked s today sts db1 in
    (db2, tasks st.name call_ids ++ later)
  where
    tasks : String → List ℕ → List (String × ℕ)
    tasks name [] = []
    tasks name (i ∷ is) = (name, i) ∷ tasks name is

-- `dispatch_tick`: the pass over Bitrix gives its rows, or fails and is rolled back.
unfoldable pub dispatch_tick :
    ℕ
    → (ℕ → Bool)
    → Settings
    → ℕ
    → (String → Qualification)
    → (String → Option String)
    → (ℕ → ℕ)
    → Option (List StatRow)
    → Db
    → Db × List (String × ℕ)
unfolding reclaim_all_stale run_ingestion claim_stages
dispatch_tick now locked s today quals cats manager_of listed db =
    let db1 = (reclaim_all_stale now s db).0 in
    let db2 : Db = elim listed [
      | none ↦ db1
      | some rows ↦ (run_ingestion now s quals cats manager_of rows db1).0
    ] in
    claim_stages now locked s today (stages s) db2
