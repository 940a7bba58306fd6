-- ===== src/Samples/Runs.antt =====
-- The properties of the whole pipeline, on the first steps of one call.
use mathlib.Core.List.{Memᴰ}
use atamura_okk.Base.{
  All, String, eq_iff, sort_by, ◌≡◌, ◌≢◌, refl, false, true, none, some, [], ◌∷◌, mem, ltb,
  if◌then◌else◌, arith,
}
use atamura_okk.Store.{ids, CallStatus, Call, Db, get, started_le}
use atamura_okk.Settings.{defaults}
use atamura_okk.Dispatch.Claim.{
  is_claimable, claim_row, claim_ready, reclaim_stale, reclaim_all_stale, candidates,
}
use atamura_okk.Dispatch.Reconcile.{IsFresh, reclaim_all_stale-twice}
use atamura_okk.Ingestion.Scope.{Qualification, is_requalifiable, refresh_qualification}
use atamura_okk.Ingestion.Race.{Overwritten, refresh_qualification-overwrites}
use atamura_okk.Ops.Retry.{failed_calls, requeue_failed}
use atamura_okk.Stages.Batch.{heartbeat}
use atamura_okk.Stages.Tasks.{without_audio, start_transcribe}
use atamura_okk.Pipeline.System.{initial, Transaction, Step, Run}
use atamura_okk.Pipeline.Rows.{IsStage}
use atamura_okk.Pipeline.Tracks.Steps.{flags, Reach-HasKeys}
use atamura_okk.Pipeline.Keys.{HasKeys}
use atamura_okk.Pipeline.Invariant.{IsOk, Reach-IsSound}
use atamura_okk.Pipeline.Graph.{Moved, Step-Moved, Reach-has_audio}
use atamura_okk.Pipeline.Attempts.{Keeps, AttemptsWithin, Reach-attempts, Run-Keeps}
use atamura_okk.Pipeline.Leases.{
  StartsSince, StartsUntil, claim_ready-grants, claim-exclusive, claim-lease, heartbeat-lease,
}
use atamura_okk.Pipeline.Queue.{claim_ready-oldest}
use atamura_okk.Pipeline.Retries.{requeue_failed-get, Routed}
use atamura_okk.Samples.Data.{
  scoped, downloading, at_scoped, at_downloading, Reach-scoped, Reach-downloading, scoped_row,
  found_scoped, found_downloading, downloading_granted, unlocked, in_scoring, scoring_row,
  claimed_scoring,
}

abbrev claim_step : Step defaults at_scoped at_downloading
claim_step = Step.transaction (Transaction.claimed 100 unlocked (Memᴰ.head refl) 50 none none)

Reach-IsSound_example : IsOk (flags downloading 1) (get 1 downloading.calls)
Reach-IsSound_example = Reach-IsSound defaults Reach-downloading 1

Step-Moved_example :
    (c' : Call) × (get 1 downloading.calls ≡ some c') × Moved defaults CallStatus.new c'.status
Step-Moved_example = Step-Moved defaults Reach-scoped claim_step 1 found_scoped

claim-exclusive_example :
    mem 1
      (claim_ready 101 unlocked CallStatus.new CallStatus.downloading 50 none none downloading).1
    ≡ false
claim-exclusive_example =
    claim-exclusive defaults 100 unlocked IsStage.download 50 none none Reach-scoped 101 unlocked
      IsStage.download 50 none none 1 downloading_granted

claim-lease_example :
    (c : Call) × (get 1 scoped.calls ≡ some c)
    × (get 1 (reclaim_stale 701 CallStatus.downloading CallStatus.new 600 downloading).0.calls
        ≡ some (if ltb 700 701 then c else claim_row CallStatus.downloading 100 c))
claim-lease_example =
    claim-lease defaults 100 unlocked IsStage.download 50 none none Reach-scoped 701 600 1
      downloading_granted

Reach-attempts_example : AttemptsWithin 4 CallStatus.downloading 0
Reach-attempts_example = Reach-attempts defaults Reach-downloading 1 found_downloading

Run-Keeps_example : (c' : Call) × (get 1 downloading.calls ≡ some c') × Keeps defaults scoped_row c'
Run-Keeps_example = Run-Keeps defaults Reach-scoped (Run.then Run.here claim_step) 1 found_scoped

claim_ready-grants_example :
    (c : Call) × (get 1 scoped.calls ≡ some c)
    × (c.status ≡ CallStatus.new)
    × (c.analyzable ≡ true)
    × StartsSince none c
    × StartsUntil none c
    × (false ≡ false)
    × (get 1 downloading.calls
        ≡ some (record c { status = CallStatus.downloading; claimed_at = some 100 }))
claim_ready-grants_example =
    claim_ready-grants 100 unlocked CallStatus.new CallStatus.downloading 50 none none scoped
      (Reach-HasKeys defaults Reach-scoped) 1 downloading_granted

-- Two calls wait, and the claim has room for one.
abbrev older : Call
older = record scoped_row { started_at = some 900 }

abbrev younger : Call
younger = record scoped_row { id = 2; bitrix_call_id = "B2" }

abbrev two_ready : Db
two_ready = record initial.db { calls = younger ∷ older ∷ [] }

two_keys : HasKeys two_ready
two_keys = (refl, (refl, tt))

claim_ready-oldest_example : started_le older younger ≡ true
unfolding get is_claimable claim_ready candidates sort_by
claim_ready-oldest_example =
    claim_ready-oldest 100 unlocked CallStatus.new CallStatus.downloading 1 none none two_ready
      two_keys 2 1 refl refl refl refl refl refl

reclaim_all_stale-twice_example :
    All (IsFresh 701 defaults) (reclaim_all_stale 701 defaults downloading).0.calls
    × (reclaim_all_stale 701 defaults (reclaim_all_stale 701 defaults downloading).0
        ≡ ((reclaim_all_stale 701 defaults downloading).0, 0))
reclaim_all_stale-twice_example = reclaim_all_stale-twice 701 defaults downloading

abbrev failed_row : Call
failed_row = record scoped_row {
  status = CallStatus.failed;
  error = some "HTTP 500";
  attempts = 2;
  audio_object_key = some "calls/B1.mp3";
}

abbrev one_failed : Db
one_failed = record initial.db { calls = failed_row ∷ [] }

requeue_failed-get_example :
    (c' : Call) × (get 1 (requeue_failed (λ i. i) defaults 10 one_failed).0.calls ≡ some c')
    × Routed defaults [] (mem 1 (ids (failed_calls (λ i. i) 10 one_failed.calls))) failed_row c'
unfolding get
requeue_failed-get_example = requeue_failed-get (λ i. i) defaults 10 one_failed (refl, tt) 1 refl

Reach-has_audio_example : start_transcribe 1 downloading ≢ some (without_audio 1)
Reach-has_audio_example = Reach-has_audio defaults Reach-downloading 1

heartbeat-lease_example :
    get 1
      (reclaim_stale 700 CallStatus.scoring CallStatus.transcribed 600
        (heartbeat 200 (1 ∷ []) in_scoring)).0.calls
    ≡ some (record scoring_row { claimed_at = some 200 })
heartbeat-lease_example =
    heartbeat-lease 200 700 600 (1 ∷ []) 1 in_scoring claimed_scoring refl (omega arith)

-- The client turns out to have qualified at 900; the call was claimed for download meanwhile.
abbrev qualified_at : String → Qualification
qualified_at key = record { qualified = some true; at = some 900 }

abbrev claimed_row : Call
claimed_row = record scoped_row { status = CallStatus.downloading; claimed_at = some 1100 }

abbrev claimed_meanwhile : Db
claimed_meanwhile = record initial.db { calls = claimed_row ∷ [] }

refresh_qualification-overwrites_example :
    (c : Call) × (get 1
        (refresh_qualification 1200 defaults qualified_at
          (λ key. none)
          10
          (scoped_row ∷ [])
          claimed_meanwhile).0.calls
      ≡ some c)
    × Overwritten claimed_row c
unfolding get is_requalifiable
refresh_qualification-overwrites_example =
    refresh_qualification-overwrites 1200 defaults qualified_at (λ key. none) 10 (scoped_row ∷ [])
      claimed_meanwhile refl refl refl refl (omega arith) refl refl
      ((λ e. cc ((eq_iff "lead:3" "").1 e))) refl (omega arith) refl
