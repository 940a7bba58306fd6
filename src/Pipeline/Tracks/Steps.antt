-- ===== src/Pipeline/Tracks/Steps.antt =====
-- Every step of the system keeps the primary key and changes every row by one row step.
use atamura_okk.Base.{ℕ, sym, subst, Bool}
use atamura_okk.Store.{Db, has_transcript}
use atamura_okk.Settings.{Settings}
use atamura_okk.Ingestion.Upsert.{next_id, upsert_call}
use atamura_okk.Ingestion.Scope.{recompute_client, refresh_qualification}
use atamura_okk.Dispatch.Claim.{claim_ready, reclaim_stale}
use atamura_okk.Ops.Retry.{requeue_failed}
use atamura_okk.Ops.Requeue.{requeue_pending_kk, requeue_scored_for_relabel}
use atamura_okk.Stages.Batch.{heartbeat}
use atamura_okk.Stages.Tasks.{Task}
use atamura_okk.Pipeline.Keys.{HasKeys, IsDistinct, upsert_call-HasKeys}
use atamura_okk.Pipeline.System.{System, Transaction, Ends, Step, Reach}
use atamura_okk.Pipeline.Tracks.Writes.{Follows, Tracks, Tracks-refl}
use atamura_okk.Pipeline.Tracks.Claims.{
  stage_pair, claim-Tracks, reclaim-Tracks, heartbeat-Tracks, unpark-Tracks, relabel-Tracks,
  attribute-Tracks, upsert-Follows,
}
use atamura_okk.Pipeline.Tracks.Scoping.{recompute-Tracks, refresh-Tracks, retry-Tracks}
use atamura_okk.Pipeline.Tracks.Settling.{
  download-Tracks, no_audio-Tracks, transcribe-Tracks, score-Tracks, fail-Tracks, release-Tracks,
  persist-Tracks, start_score-Tracks,
}

-- Whether each call has a transcript.
abbrev pub flags : Db → ℕ → Bool
flags db j = has_transcript j db.transcripts

-- What one transaction does to the calls table.
abbrev pub Moves : Settings → Db → Db → Type 0
Moves s db db' = HasKeys db' × Follows s (flags db) (flags db') db.calls db'.calls

module _ (s : Settings) where
  moves :
      (db db' : Db)
      → HasKeys db
      → Tracks s (flags db) (flags db') db.calls db'.calls
      → Moves s db db'
  moves db db' keys (same_ids, follows) = (subst IsDistinct (sym same_ids) keys, follows)

  pub Transaction-Moves : {db db' : Db} → Transaction s db db' → HasKeys db → Moves s db db'
  unfolding recompute_client refresh_qualification claim_ready reclaim_stale requeue_failed
      requeue_pending_kk requeue_scored_for_relabel heartbeat
  Transaction-Moves {db} {db'} (Transaction.upserted now f) k = (
    upsert_call-HasKeys now f db k,
    unfold upsert_call in upsert-Follows s (flags db) now (next_id db.calls) f db.calls,
  )
  Transaction-Moves {db} {db'} (Transaction.attributed u m) k =
      moves db db' k (attribute-Tracks s db k u m)
  Transaction-Moves {db} {db'} (Transaction.recomputed quals cats key st) k =
      moves db db' k (recompute-Tracks s db k quals cats key st)
  Transaction-Moves {db} {db'} (Transaction.requalified now quals cats limit read undisturbed) k =
      moves db db' k (refresh-Tracks s db k now quals cats limit read undisturbed)
  Transaction-Moves {db} {db'} (Transaction.claimed now locked m limit since until) k =
      moves db db' k (claim-Tracks s db k now locked (stage_pair s m) limit since until)
  Transaction-Moves {db} {db'} (Transaction.reclaimed now {st} m) k =
      moves db db' k (reclaim-Tracks s db k now (stage_pair s m) st.stale_seconds)
  Transaction-Moves {db} {db'} (Transaction.requeued updated_at limit) k =
      moves db db' k (retry-Tracks s db k updated_at limit)
  Transaction-Moves {db} {db'} (Transaction.unparked limit) k =
      moves db db' k (unpark-Tracks s db k limit)
  Transaction-Moves {db} {db'} (Transaction.relabelled limit stereo_only) k =
      moves db db' k (relabel-Tracks s db k limit stereo_only)
  Transaction-Moves {db} {db'} (Transaction.batch_failed e i) k =
      moves db db' k (fail-Tracks s db e i)
  Transaction-Moves {db} {db'} (Transaction.batch_released i) k =
      moves db db' k (release-Tracks s db i)
  Transaction-Moves {db} {db'} (Transaction.batch_heartbeat now is) k =
      moves db db' k (heartbeat-Tracks s db k now is)
  Transaction-Moves {db} {db'} (Transaction.batch_scored env i message) k =
      moves db db' k (persist-Tracks s db env i message)
  Transaction-Moves {db} {db'} (Transaction.batches_saved rows) k =
      moves db db' k (Tracks-refl s (flags db) db.calls)

  pub Ends-Moves : {t : Task} {db db' : Db} → Ends t db db' → HasKeys db → Moves s db db'
  Ends-Moves {t} {db} {db'} (Ends.download is_alnum i fetched d) k =
      moves d db' k (download-Tracks s d is_alnum i fetched)
  Ends-Moves {t} {db} {db'} (Ends.transcribe hk i key outcome d) k =
      moves d db' k (transcribe-Tracks s d hk i outcome)
  Ends-Moves {t} {db} {db'} (Ends.no_audio i d) k = moves d db' k (no_audio-Tracks s d i)
  Ends-Moves {t} {db} {db'} (Ends.score env i a d) k = moves d db' k (score-Tracks s d env i a)

  pub Step-Moves : {sys sys' : System} → Step s sys sys' → HasKeys sys.db → Moves s sys.db sys'.db
  Step-Moves (Step.transaction t) k = Transaction-Moves t k
  Step-Moves {sys} {sys'} (Step.begin_download i) k =
      moves sys.db sys'.db k (Tracks-refl s (flags sys.db) sys.db.calls)
  Step-Moves {sys} {sys'} (Step.begin_transcribe i) k =
      moves sys.db sys'.db k (Tracks-refl s (flags sys.db) sys.db.calls)
  Step-Moves {sys} {sys'} (Step.begin_score i) k =
      moves sys.db sys'.db k (start_score-Tracks s sys.db i)
  Step-Moves (Step.finish before behind t e ends) k = Ends-Moves ends k
  Step-Moves {sys} {sys'} (Step.crash before behind t e) k =
      moves sys.db sys'.db k (Tracks-refl s (flags sys.db) sys.db.calls)

  -- The primary key is unique in every reachable state.
  pub Reach-HasKeys : {sys : System} → Reach s sys → HasKeys sys.db
  Reach-HasKeys Reach.start = tt
  Reach-HasKeys (Reach.next r st) = (Step-Moves st (Reach-HasKeys r)).0
