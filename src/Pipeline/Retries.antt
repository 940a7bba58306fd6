-- ===== src/Pipeline/Retries.antt =====
-- What a pass of `requeue_failed` does (AtamuraOKK/ops/retry.py): to each call, and to the counters.
use atamura_okk.Base.{
  str_eq-ne, ℕ, suc, ◌+◌, ◌≤◌, ◌≡◌, refl, sym, ap, subst, ◌∙◌, inl, inr, ◌≢◌, ◌⊎◌, ◌<◌, String,
  str_eq, true, false, Bool, none, some, List, [], ◌∷◌, arith, ◌==◌, ==_iff, leb, if◌then◌else◌,
  Bool-cases, mem, All, All-imp, All-take, All-sort_by, select, length,
}
use atamura_okk.Store.{
  CallStatus, Call, Transcript, Db, status_eq, get, put, ids, updated_le, has_transcript,
}
use atamura_okk.Store.Laws.{get-put_found, get-put_other}
use atamura_okk.Settings.{Settings}
use atamura_okk.Ops.Retry.{
  RetryStats, no_stats, route, route_status, requeue_one, requeue_rows, failed_calls,
  requeue_failed,
}
use atamura_okk.Pipeline.Keys.{HasKeys}
use atamura_okk.Pipeline.Queue.{length-take}
use atamura_okk.Pipeline.Tracks.Claims.{IsHit, select_rows}

module _ (s : Settings) (ts : List Transcript) where
  -- A call that has attempts left goes to the stage that its artifacts allow, without its error; its
  -- attempt counter stays.
  abbrev pub retried : Call → Call
  retried c =
      if leb s.max_retries c.attempts
      then c
      else record c { status = route_status (route (has_transcript c.id ts) c); error = none }

  requeue_one-row : (c : Call) (st : RetryStats) → (requeue_one s ts c st).0 ≡ retried c
  unfolding requeue_one
  requeue_one-row c st = elim (Bool-cases (leb s.max_retries c.attempts)) [
    | inl e ↦ rw e refl
    | inr e ↦ rw e refl
  ]

  retried-id : (c : Call) → (retried c).id ≡ c.id
  retried-id c = ground arith

  requeue_rows-get :
      (i : ℕ) (c : Call) (rows now : List Call) (x : Call) (st : RetryStats)
      → All (λ d. d.id ≡ i → d ≡ c) rows
      → get i now ≡ some x
      → get i (requeue_rows s ts rows now st).0 ≡ some (if mem i (ids rows) then retried c else x)
  unfolding requeue_rows
  requeue_rows-get i c [] now x st same found = found
  requeue_rows-get i c (d ∷ ds) now x st same found = elim (Bool-cases (d.id == i)) [
    | inl e ↦
        let at_i : d.id ≡ i = (==_iff _ _).0 e in
        let written : (requeue_one s ts d st).0 ≡ retried c =
          requeue_one-row d st ∙ ap retried (same.0 at_i) in
        let key : (retried c).id ≡ i = retried-id c ∙ (ap (λ r. r.id) (sym (same.0 at_i)) ∙ at_i) in
        let later =
          requeue_rows-get i c ds (put (requeue_one s ts d st).0 now) (retried c)
            (requeue_one s ts d st).1 same.1
            (rw written (get-put_found i (retried c) now key found)) in
        rw e (elim (Bool-cases (mem i (ids ds))) [ inl m ↦ rw m at later | inr m ↦ rw m at later ])
    | inr e ↦
        let key : (requeue_one s ts d st).0.id ≡ d.id =
          ap (λ r. r.id) (requeue_one-row d st) ∙ retried-id d in
        rw e (
          requeue_rows-get i c ds (put (requeue_one s ts d st).0 now) x (requeue_one s ts d st).1
            same.1 (get-put_other i (requeue_one s ts d st).0 now (rw key e) ∙ found))
  ]

  -- The counters of one pass.
  abbrev pub IsTallied : RetryStats → ℕ → Type 0
  IsTallied st n =
      (st.requeued ≡ st.to_new + (st.to_downloaded + st.to_transcribed))
      × (st.requeued + st.dead_lettered ≡ n)

  requeue_one-IsTallied :
      (c : Call) (st : RetryStats) (n : ℕ)
      → IsTallied st n
      → IsTallied (requeue_one s ts c st).1 (suc n)
  unfolding requeue_one route
  requeue_one-IsTallied c st n h = ground arith

  requeue_rows-IsTallied :
      (rows now : List Call) (st : RetryStats) (n : ℕ)
      → IsTallied st n
      → IsTallied (requeue_rows s ts rows now st).1 (n + length rows)
  unfolding requeue_rows
  requeue_rows-IsTallied [] now st n h = omega (arith, h)
  requeue_rows-IsTallied (c ∷ cs) now st n h =
      let rest =
        requeue_rows-IsTallied cs (put (requeue_one s ts c st).0 now) (requeue_one s ts c st).1
          (suc n) (requeue_one-IsTallied c st n h) in
      ground arith

-- The row of a call that goes back to this status.
abbrev pub BackTo : CallStatus → Call → Call → Type 0
BackTo st c c' = c' ≡ record c { status = st; error = none }

-- What a pass makes of a row, which it picks or not.
abbrev pub Routed : Settings → List Transcript → Bool → Call → Call → Type 0
Routed s ts picked c c' =
    (picked ≡ false → c' ≡ c)
    × (s.max_retries ≤ c.attempts → c' ≡ c)
    × (picked ≡ true
        → c.attempts < s.max_retries
        → (has_transcript c.id ts ≡ true → BackTo CallStatus.transcribed c c')
          × (has_transcript c.id ts ≡ false
              → (k : String) → c.audio_object_key ≡ some k
              → k ≢ ""
              → BackTo CallStatus.downloaded c c')
          × (has_transcript c.id ts ≡ false
              → (c.audio_object_key ≡ none) ⊎ (c.audio_object_key ≡ some "")
              → BackTo CallStatus.new c c'))

module _ (updated_at : ℕ → ℕ) (s : Settings) (limit : ℕ) (db : Db) (keys : HasKeys db) where
  abbrev rows : List Call
  rows = failed_calls updated_at limit db.calls

  abbrev is_failed : Call → Bool
  is_failed c = status_eq c.status CallStatus.failed

  rows-IsHit : All (IsHit db.calls keys is_failed) rows
  rows-IsHit = All-take (IsHit db.calls keys is_failed) limit _ (
      All-sort_by (IsHit db.calls keys is_failed) (updated_le updated_at)
        (select is_failed db.calls) (select_rows db.calls keys is_failed))

  requeued_row :
      (i : ℕ) {c : Call}
      → get i db.calls ≡ some c
      → get i (requeue_failed updated_at s limit db).0.calls
        ≡ some (if mem i (ids rows) then retried s db.transcripts c else c)
  unfolding requeue_failed
  requeued_row i {c} found =
      requeue_rows-get s db.transcripts i c rows db.calls c no_stats
        (All-imp (IsHit db.calls keys is_failed) (λ d. d.id ≡ i → d ≡ c)
          (λ d hit at_i.
            let same_row : some d ≡ some c =
              sym (subst (λ k. get k db.calls ≡ some d) at_i hit.0) ∙ found in
            cc same_row)
          rows rows-IsHit)
        found

  -- In a table with distinct ids, a pass leaves every call alone that it does not pick, and each one that it picks whose attempts are
  -- used up. Any other call that it picks loses its error and becomes TRANSCRIBED if it has a
  -- transcript, else DOWNLOADED if it has a key of an audio that is not empty, and else NEW; nothing
  -- else of it changes.
  pub requeue_failed-get :
      (i : ℕ) {c : Call}
      → get i db.calls ≡ some c
      → (c' : Call) × (get i (requeue_failed updated_at s limit db).0.calls ≡ some c')
        × Routed s db.transcripts (mem i (ids rows)) c c'
  unfolding route
  requeue_failed-get i {c} found =
      let listed = mem i (ids rows) in
      (
        if listed then retried s db.transcripts c else c,
        requeued_row i found,
        (
          (λ out. rw out refl),
          (λ dead. elim (Bool-cases listed) [
            | inl e ↦
                let used : leb s.max_retries c.attempts ≡ true = ground arith in rw (e, used) refl
            | inr e ↦ rw e refl
          ]),
          (λ picked alive.
              let left : leb s.max_retries c.attempts ≡ false = ground arith in
              (
                (λ t. rw (picked, left, t) refl),
                (λ t k e full.
                    let there : str_eq k "" ≡ false = str_eq-ne k "" full in
                    rw (picked, left, t) (rw (e, there) refl)),
                (λ t o. elim o [
                  | inl e ↦ rw (picked, left, t) (rw e refl)
                  | inr e ↦ rw (picked, left, t) (rw e refl)
                ]),
              )),
        ),
      )

  -- The counters of a pass agree: what it requeued is the sum over the three stages, and with the
  -- dead letters it is the number of calls that it picked, which is at most the limit.
  pub requeue_failed-counts :
      let st = (requeue_failed updated_at s limit db).1 in
      (st.requeued ≡ st.to_new + (st.to_downloaded + st.to_transcribed))
      × (st.requeued + st.dead_lettered ≡ length rows)
      × (length rows ≤ limit)
  unfolding requeue_failed
  requeue_failed-counts =
      let (sums, all) =
        requeue_rows-IsTallied s db.transcripts rows db.calls no_stats 0 (refl, refl) in
      (sums, omega (arith, all), length-take limit _)
