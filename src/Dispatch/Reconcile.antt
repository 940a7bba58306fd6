-- ===== src/Dispatch/Reconcile.antt =====
-- The reconciler's pass over all stages (`reclaim_all_stale`, AtamuraOKK/dispatch/claim.py).
use atamura_okk.Base.{
  ℕ, ◌+◌, ◌≤◌, ◌≡◌, refl, Bool, true, some, false, ◌&&◌, List, [], ◌∷◌, arith, if◌then◌else◌, All,
  All-imp, select, length,
}
use atamura_okk.Store.{CallStatus, Call, Db, status_eq, update_where}
use atamura_okk.Store.Laws.{status_eq_refl}
use atamura_okk.Settings.{Settings}
use atamura_okk.Dispatch.Claim.{
  is_stale, reclaim_row, reclaim_stale, stages, reclaim_stages, reclaim_all_stale,
}

module _ (p : Call → Bool) (f : Call → Call) where
  All-update_where :
      (Q R : Call → Type 0)
      → ((c : Call) → Q c → R (if p c then f c else c))
      → (cs : List Call) → All Q cs
      → All R (update_where p f cs)
  unfolding update_where
  All-update_where Q R step [] h = tt
  All-update_where Q R step (c ∷ cs) h = (step c h.0, All-update_where Q R step cs h.1)

  update_where-none : (cs : List Call) → All (λ c. p c ≡ false) cs → update_where p f cs ≡ cs
  unfolding update_where
  update_where-none [] h = refl
  update_where-none (c ∷ cs) h = rw (h.0, update_where-none cs h.1) refl

  select-none : (cs : List Call) → All (λ c. p c ≡ false) cs → length (select p cs) ≡ 0
  select-none [] h = refl
  select-none (c ∷ cs) h = rw h.0 (select-none cs h.1)

module _ (now : ℕ) (s : Settings) where
  abbrev is_due : CallStatus → ℕ → Call → Bool
  is_due dst ttl c = status_eq c.status dst && is_stale now ttl c.claimed_at

  abbrev due_download : Call → Bool
  due_download = is_due CallStatus.downloading s.claim_stale_seconds_download

  abbrev due_transcribe : Call → Bool
  due_transcribe = is_due CallStatus.transcribing s.claim_stale_seconds_transcribe

  abbrev due_score : Call → Bool
  due_score = is_due CallStatus.scoring s.claim_stale_seconds_score

  -- No stale claim is left of the first stage, of the first two, of all three.
  abbrev IsFresh1 : Call → Type 0
  IsFresh1 c = due_download c ≡ false

  abbrev IsFresh2 : Call → Type 0
  IsFresh2 c = IsFresh1 c × (due_transcribe c ≡ false)

  abbrev IsFresh3 : Call → Type 0
  IsFresh3 c = IsFresh2 c × (due_score c ≡ false)

  All-any : (cs : List Call) → All (λ c. Unit {0}) cs
  All-any [] = tt
  All-any (c ∷ cs) = (tt, All-any cs)

  All-fresh : (db : Db) → All IsFresh3 (reclaim_all_stale now s db).0.calls
  unfolding reclaim_all_stale reclaim_stages reclaim_stale reclaim_row
  All-fresh db =
      All-update_where due_score (reclaim_row CallStatus.transcribed) IsFresh2 IsFresh3
        (λ c h. ground arith) _
        (All-update_where due_transcribe (reclaim_row CallStatus.downloaded) IsFresh1 IsFresh2
          (λ c h. ground arith) _
          (All-update_where due_download (reclaim_row CallStatus.new) (λ c. Unit {0}) IsFresh1
            (λ c h. ground arith) db.calls (All-any db.calls)))

  reclaim_stale-none :
      (dst src : CallStatus) (ttl : ℕ) (db : Db)
      → All (λ c. is_due dst ttl c ≡ false) db.calls
      → reclaim_stale now dst src ttl db ≡ (db, 0)
  unfolding reclaim_stale
  reclaim_stale-none dst src ttl db h =
      rw
        (
          update_where-none (is_due dst ttl) (reclaim_row src) db.calls h,
          select-none (is_due dst ttl) (reclaim_row src) db.calls h,
        )
        refl

  stages_fresh : (db : Db) → All IsFresh3 db.calls → reclaim_stages now (stages s) db ≡ (db, 0)
  unfolding reclaim_stages
  stages_fresh db h =
      rw
        (reclaim_stale-none CallStatus.downloading CallStatus.new s.claim_stale_seconds_download db
          (All-imp IsFresh3 IsFresh1 (λ c k. k.0.0) db.calls h))
        (rw
          (reclaim_stale-none CallStatus.transcribing CallStatus.downloaded
            s.claim_stale_seconds_transcribe db
            (All-imp IsFresh3 (λ c. due_transcribe c ≡ false) (λ c k. k.0.1) db.calls h))
          (rw
            (reclaim_stale-none CallStatus.scoring CallStatus.transcribed
              s.claim_stale_seconds_score db
              (All-imp IsFresh3 (λ c. due_score c ≡ false) (λ c k. k.1) db.calls h))
            refl))

  -- A claim of the call in this status, if there is one, is no older than this.
  abbrev pub Lasts : CallStatus → ℕ → Call → Type 0
  Lasts dst ttl c = (at : ℕ) → c.status ≡ dst → c.claimed_at ≡ some at → now ≤ at + ttl

  abbrev pub IsFresh : Call → Type 0
  IsFresh c =
      Lasts CallStatus.downloading s.claim_stale_seconds_download c
      × Lasts CallStatus.transcribing s.claim_stale_seconds_transcribe c
      × Lasts CallStatus.scoring s.claim_stale_seconds_score c

  due-Lasts : (dst : CallStatus) (ttl : ℕ) (c : Call) → is_due dst ttl c ≡ false → Lasts dst ttl c
  due-Lasts dst ttl c h at e f =
      let k = rw (e, f) at h in
      let same : status_eq dst dst ≡ true = status_eq_refl dst in ground arith

  -- One pass of the reconciler leaves no stale claim of any stage: whatever call is then downloading,
  -- transcribing or scoring under a claim was claimed no longer ago than that stage's time limit. And a
  -- second pass at the same time reverses nothing and changes nothing.
  pub reclaim_all_stale-twice :
      (db : Db)
      → let db' = (reclaim_all_stale now s db).0 in
        All IsFresh db'.calls × (reclaim_all_stale now s db' ≡ (db', 0))
  reclaim_all_stale-twice db = (
    All-imp IsFresh3 IsFresh
        (λ c k. (due-Lasts _ _ c k.0.0, due-Lasts _ _ c k.0.1, due-Lasts _ _ c k.1))
        (reclaim_all_stale now s db).0.calls (All-fresh db),
    unfold reclaim_all_stale in stages_fresh (reclaim_stages now (stages s) db).0 (All-fresh db),
  )
