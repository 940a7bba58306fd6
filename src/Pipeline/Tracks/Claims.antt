-- ===== src/Pipeline/Tracks/Claims.antt =====
-- Bulk writes: claims, reversals, requeues, heartbeats, re-ingested and attributed rows.
use mathlib.Core.List.{Memᴰ}
use atamura_okk.Base.{
  ℕ, ◌≡◌, refl, sym, subst, ◌∙◌, ap, inl, inr, Bool, true, ◌&&◌, not, Option, none, some, List, [],
  ◌∷◌, arith, ◌==◌, Bool-cases, All, All-select, All-take, All-sort_by, mem, mem-map_elim, and_true,
  select, sort_by, str_eq,
}
use atamura_okk.Store.{
  CallStatus, Call, Db, status_eq, get, ids, has_transcript, update_where, started_le,
}
use atamura_okk.Store.Laws.{get-id}
use atamura_okk.Settings.{Settings}
use atamura_okk.Dispatch.Claim.{
  Stage, stages, is_claimable, candidates, claim_row, claim_ready, reclaim_row, reclaim_stale,
}
use atamura_okk.Ops.Requeue.{
  limited, is_parked, is_relabelled, requeued_row, requeue_pending_kk, requeue_scored_for_relabel,
}
use atamura_okk.Stages.Batch.{heartbeat_row, heartbeat}
use atamura_okk.Ingestion.Upsert.{
  CallFields, inserted, attributed_row, upsert_rows, attribute_manager,
}
use atamura_okk.Pipeline.Rows.{
  IsStage, RowStep, same, claim, reclaim, unparked, relabel, reingested, attributed, Evolves,
  absent, appears, row,
}
use atamura_okk.Pipeline.Rows
use atamura_okk.Pipeline.Keys.{IsDistinct, IsRowOf, rows_found}
use atamura_okk.Pipeline.Tracks.Writes.{Tracks, Follows, Evolves-refl, update-Tracks}

pub status_eq→eq : (a b : CallStatus) → status_eq a b ≡ true → a ≡ b
status_eq→eq CallStatus.new b h = ground arith
status_eq→eq _ b h = ground arith

pub stage_pair : (s : Settings) {st : Stage} → Memᴰ st (stages s) → IsStage st.ready st.in_flight
stage_pair s (Memᴰ.head e) = rw e IsStage.download
stage_pair s (Memᴰ.tail (Memᴰ.head e)) = rw e IsStage.transcribe
stage_pair s (Memᴰ.tail (Memᴰ.tail (Memᴰ.head e))) = rw e IsStage.score
stage_pair s (Memᴰ.tail (Memᴰ.tail (Memᴰ.tail m))) = elim m [ ]

claimable_facts :
    (src : CallStatus) (since until : Option ℕ) (c : Call)
    → is_claimable src since until c ≡ true
    → (c.status ≡ src) × (c.analyzable ≡ true)
unfolding is_claimable
claimable_facts src since until c h =
    let (a, b) = and_true _ _ h in (status_eq→eq _ _ a, (and_true _ _ b).0)

-- A row whose id was chosen by a query passes the query's test.
module _ (cs : List Call) (distinct : IsDistinct (ids cs)) (p : Call → Bool) where
  abbrev pub IsHit : Call → Type 0
  IsHit c = IsRowOf cs c × (p c ≡ true)

  pub select_rows : All IsHit (select p cs)
  select_rows = All-select (IsRowOf cs) p cs (rows_found cs distinct)

  pub hit_of_mem :
      (chosen : List Call)
      → All IsHit chosen
      → (c : Call) → IsRowOf cs c
      → mem c.id (ids chosen) ≡ true
      → p c ≡ true
  hit_of_mem chosen all c found m =
      let (d, key, (found', hit)) = mem-map_elim IsHit (λ r. r.id) c.id chosen m all in
      let is_d : some c ≡ some d = sym found ∙ (ap (λ i. get i cs) (sym key) ∙ found') in
      cc (is_d, hit)

pub found_row : (j : ℕ) (cs : List Call) (c : Call) → get j cs ≡ some c → IsRowOf cs c
found_row j cs c h = subst (λ k. get k cs ≡ some c) (sym (get-id j cs h)) h

module _ (s : Settings) (db : Db) (distinct : IsDistinct (ids db.calls)) where
  abbrev flags : ℕ → Bool
  flags j = has_transcript j db.transcripts

  pub claim-Tracks :
      (now : ℕ) (locked : ℕ → Bool) {src dst : CallStatus}
      → IsStage src dst
      → (limit : ℕ) (since until : Option ℕ)
      → Tracks s flags flags db.calls (claim_ready now locked src dst limit since until db).0.calls
  unfolding claim_ready candidates
  claim-Tracks now locked {src} {dst} st limit since until =
      let test : Call → Bool = λ c. is_claimable src since until c && not (locked c.id) in
      let hits = select_rows db.calls distinct test in
      let sorted =
        All-sort_by (IsHit db.calls distinct test) started_le (select test db.calls) hits in
      let chosen =
        All-take (IsHit db.calls distinct test) limit (sort_by started_le (select test db.calls))
          sorted in
      update-Tracks s flags _ (claim_row dst now) (λ c. unfold claim_row in refl) db.calls
        λ j c found hit.
          let (ready, ok) =
            claimable_facts src since until c
              (and_true _ _ (
                hit_of_mem db.calls distinct test _ chosen c (found_row j db.calls c found)
                  hit)).0 in
          claim now st ready ok refl

  pub reclaim-Tracks :
      (now : ℕ) {src dst : CallStatus}
      → IsStage src dst
      → (ttl : ℕ) → Tracks s flags flags db.calls (reclaim_stale now dst src ttl db).0.calls
  unfolding reclaim_stale
  reclaim-Tracks now {src} st ttl =
      update-Tracks s flags _ (reclaim_row src) (λ c. unfold reclaim_row in refl) db.calls
        λ j c found hit. reclaim st (status_eq→eq _ _ (and_true _ _ hit).0) refl

  pub heartbeat-Tracks :
      (now : ℕ) (is : List ℕ) → Tracks s flags flags db.calls (heartbeat now is db).calls
  unfolding heartbeat
  heartbeat-Tracks now is =
      update-Tracks s flags _ (heartbeat_row now) (λ c. refl) db.calls
        λ j c found hit. Rows.heartbeat now (status_eq→eq _ _ (and_true _ _ hit).1) refl

  All-limited :
      (P : Call → Type 0) (limit : Option ℕ) (rows : List Call)
      → All P rows
      → All P (limited limit rows)
  unfolding limited
  All-limited P none rows h = h
  All-limited P (some n) rows h = All-take P n rows h

  -- A bulk requeue of rows that a query chose.
  requeue-Tracks :
      (p : Call → Bool) (limit : Option ℕ) (status : CallStatus)
      → ((t : Bool) (c : Call) → p c ≡ true → RowStep s t t c (requeued_row status c))
      → Tracks s flags flags db.calls (
          update_where
            (λ c. mem c.id (ids (limited limit (select p db.calls))))
            (requeued_row status)
            db.calls)
  requeue-Tracks p limit status st =
      update-Tracks s flags _ (requeued_row status) (λ c. refl) db.calls
        λ j c found hit. st (flags j) c (
          hit_of_mem db.calls distinct p _
            (All-limited (IsHit db.calls distinct p) limit (select p db.calls)
              (select_rows db.calls distinct p))
            c (found_row j db.calls c found) hit)

  pub unpark-Tracks :
      (limit : Option ℕ) → Tracks s flags flags db.calls (requeue_pending_kk limit db).0.calls
  unfolding requeue_pending_kk
  unpark-Tracks limit =
      requeue-Tracks is_parked limit CallStatus.downloaded
        λ t c h. unparked (status_eq→eq _ _ h) refl

  pub relabel-Tracks :
      (limit : Option ℕ) (stereo_only : Bool)
      → Tracks s flags flags db.calls (requeue_scored_for_relabel limit stereo_only db).0.calls
  unfolding requeue_scored_for_relabel
  relabel-Tracks limit stereo_only =
      requeue-Tracks (is_relabelled stereo_only) limit CallStatus.transcribed
        λ t c h. relabel (status_eq→eq _ _ (and_true _ _ h).0) refl

  pub attribute-Tracks :
      (user manager : ℕ) → Tracks s flags flags db.calls (attribute_manager user manager db.calls)
  unfolding attribute_manager
  attribute-Tracks user manager =
      update-Tracks s flags _ (attributed_row manager) (λ c. refl) db.calls
        λ j c found hit. attributed manager refl

inserted_id : (now i : ℕ) (f : CallFields) → (inserted now i f).id ≡ i
unfolding inserted
inserted_id now i f = refl

module _ (s : Settings) (t : ℕ → Bool) (now i : ℕ) (f : CallFields) where
  pub upsert-Follows : (cs : List Call) → Follows s t t cs (upsert_rows now i f cs)
  unfolding upsert_rows get
  upsert-Follows [] j = elim (Bool-cases (i == j)) [
    | inl e ↦ rw (inserted_id now i f, e) (appears now i f refl)
    | inr e ↦ rw (inserted_id now i f, e) (absent refl)
  ]
  upsert-Follows (c ∷ cs) j = elim (Bool-cases (c.id == j)) [
    | inl e ↦ elim (Bool-cases (str_eq c.bitrix_call_id f.bitrix_call_id)) [
      | inl known ↦ rw (known, e) (row (reingested f refl))
      | inr new ↦ rw (new, e) (row (same refl))
    ]
    | inr e ↦ elim (Bool-cases (str_eq c.bitrix_call_id f.bitrix_call_id)) [
      | inl known ↦ rw (known, e) (Evolves-refl s (t j) (t j) refl (get j cs))
      | inr new ↦ rw (new, e) (upsert-Follows cs j)
    ]
  ]
