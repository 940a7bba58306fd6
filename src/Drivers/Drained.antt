-- ===== src/Drivers/Drained.antt =====
-- What draining an ended batch leaves behind (`_drain_results`, AtamuraOKK/scoring/batch.py).
use atamura_okk.Base.{
  ℕ, ◌≡◌, refl, subst, ap, ◌∙◌, inl, inr, ◌⊎◌, String, true, false, ◌||◌, Option, none, some, List,
  [], ◌∷◌, arith, ◌==◌, ==_iff, Bool-cases, Option-cases, mem,
}
use atamura_okk.Store.{CallStatus, Call, Db, status_eq, get, put, claimed}
use atamura_okk.Store.Laws.{get-put, overwrite, get-id}
use atamura_okk.Pipeline.Tracks.Settling.{claimed_facts}
use atamura_okk.Pipeline.Redelivery.{settle-IsSettled}
use atamura_okk.Stages.Score.{Env, Assessed, assessment, scoring_error, fail_row}
use atamura_okk.Stages.Batch.{if_claimed, released_row, fail, release, persist_result}
use atamura_okk.Drivers.Batches.{
  BatchResult, succeeded, errored, never_scored, BatchEntry, Drained, drain_one, drain_entries,
  distinct, release_one, release_unseen, nothing_drained, drain_results,
}

-- The call `i` is not claimed for scoring.
abbrev IsFree : ℕ → Db → Type 0
IsFree i db = claimed CallStatus.scoring i db ≡ none

IsFree-row :
    (i : ℕ) (db : Db) (o : Option Call)
    → get i db.calls ≡ o
    → ((c : Call) → o ≡ some c → status_eq c.status CallStatus.scoring ≡ false)
    → IsFree i db
unfolding claimed
IsFree-row i db none e h = rw (e, claimed) refl
IsFree-row i db (some c) e h = rw (e, claimed) (rw (h c refl) refl)

free_status :
    (i : ℕ) (db : Db) (c : Call)
    → IsFree i db
    → get i db.calls ≡ some c
    → status_eq c.status CallStatus.scoring ≡ false
unfolding claimed
free_status i db c free found = elim (Bool-cases (status_eq c.status CallStatus.scoring)) [
  | inr e ↦ e
  | inl e ↦ let held : some c ≡ none = rw e at (rw (found, claimed) at free) in cc held
]

overwrite_off :
    (c' c : Call) (o : Option Call)
    → status_eq c'.status CallStatus.scoring ≡ false
    → overwrite c' o ≡ some c
    → status_eq c.status CallStatus.scoring ≡ false
overwrite_off c' c none off h = cc h
overwrite_off c' c (some d) off h = cc (off, h)

-- A write of a row that is not in SCORING frees its call, and claims no other.
put-IsFree :
    (i : ℕ) (db db' : Db) (c' : Call)
    → db'.calls ≡ put c' db.calls
    → status_eq c'.status CallStatus.scoring ≡ false
    → (c'.id ≡ i) ⊎ IsFree i db
    → IsFree i db'
put-IsFree i db db' c' written off h =
    let after = ap (λ cs. get i cs) written ∙ get-put i c' db.calls in
    elim (Bool-cases (c'.id == i)) [
      | inl e ↦
          IsFree-row i db' (overwrite c' (get i db.calls)) (rw e at after)
            (λ c found. overwrite_off c' c (get i db.calls) off found)
      | inr e ↦
          let free : IsFree i db = elim h [ inl same ↦ absurd (ground arith) | inr f ↦ f ] in
          IsFree-row i db' (get i db.calls) (rw e at after)
            (λ c found. free_status i db c free found)
    ]

-- What an operation on the call `j` may do to the claim of `i`.
abbrev Frees : ℕ → ℕ → Db → Db → Type 0
Frees i j db db' = (j ≡ i) ⊎ IsFree i db → IsFree i db'

module _ (i j : ℕ) (db : Db) where
  kept : IsFree j db → Frees i j db db
  kept free (inl same) = subst (λ k. IsFree k db) same free
  kept free (inr f) = f

  by_row :
      (db' : Db) (c c' : Call)
      → claimed CallStatus.scoring j db ≡ some c
      → c'.id ≡ c.id
      → db'.calls ≡ put c' db.calls
      → status_eq c'.status CallStatus.scoring ≡ false
      → Frees i j db db'
  by_row db' c c' h key written off which =
      let own : c'.id ≡ j = key ∙ get-id j db.calls (claimed_facts CallStatus.scoring j db h).0 in
      put-IsFree i db db' c' written off
        (elim which [ inl same ↦ inl (own ∙ same) | inr f ↦ inr f ])

  fail-Frees : (e : String) → Frees i j db (fail e j db)
  unfolding fail if_claimed fail_row
  fail-Frees e = elim (Option-cases (claimed CallStatus.scoring j db)) [
    | inl h ↦ rw (h, if_claimed) (kept h)
    | inr (c, h) ↦ rw (h, if_claimed) (by_row _ c (fail_row e c) h refl refl refl)
  ]

  release-Frees : Frees i j db (release j db)
  unfolding release if_claimed
  release-Frees = elim (Option-cases (claimed CallStatus.scoring j db)) [
    | inl h ↦ rw (h, if_claimed) (kept h)
    | inr (c, h) ↦ rw (h, if_claimed) (by_row _ c (released_row c) h refl refl refl)
  ]

  persist-Frees : (env : Env) (a : Assessed) → Frees i j db (persist_result env j a db).0
  unfolding persist_result
  persist-Frees env (scoring_error e) = fail-Frees e
  persist-Frees env (assessment r) = elim (Option-cases (claimed CallStatus.scoring j db)) [
    | inl h ↦ rw (h, persist_result) (kept h)
    | inr (c, h) ↦
        let (c', written, key, off) = settle-IsSettled env j (assessment r) c db in
        rw (h, persist_result) (by_row _ c c' h key written off)
  ]

mem-distinct : (i : ℕ) (is : List ℕ) → mem i (distinct is) ≡ mem i is
unfolding distinct
mem-distinct i [] = refl
mem-distinct i (j ∷ js) = elim (Bool-cases (mem j js)) [
  | inl e ↦ rw e (
      mem-distinct i js ∙ elim (Bool-cases (j == i)) [
        | inl same ↦ rw same (subst (λ k. mem k js ≡ true) ((==_iff j i).0 same) e)
        | inr other ↦ rw other refl
      ])
  | inr e ↦ rw e (ap (λ b. (j == i) || b) (mem-distinct i js))
]

module _ (i : ℕ) where
  -- A call whose result has been seen is free.
  abbrev IsDone : Drained → Type 0
  IsDone d = mem i d.seen ≡ true → IsFree i d.db

  drain_one-Frees :
      (env : Env) (j : ℕ) (r : BatchResult) (d : Drained) → Frees i j d.db (drain_one env j r d).db
  unfolding drain_one
  drain_one-Frees env j (succeeded message) d = persist-Frees i j d.db env message
  drain_one-Frees env j (errored e) d = fail-Frees i j d.db e
  drain_one-Frees env j never_scored d = release-Frees i j d.db

  drain_one-seen :
      (env : Env) (j : ℕ) (r : BatchResult) (d : Drained) → (drain_one env j r d).seen ≡ j ∷ d.seen
  unfolding drain_one
  drain_one-seen env j (succeeded message) d = refl
  drain_one-seen env j (errored e) d = refl
  drain_one-seen env j never_scored d = refl

  drain_one-IsDone :
      (env : Env) (j : ℕ) (r : BatchResult) (d : Drained) → IsDone d → IsDone (drain_one env j r d)
  drain_one-IsDone env j r d done h = elim (Bool-cases (j == i)) [
    | inl e ↦ drain_one-Frees env j r d (inl ((==_iff j i).0 e))
    | inr e ↦
        let seen : mem i d.seen ≡ true = rw e at (rw (drain_one-seen env j r d) at h) in
        drain_one-Frees env j r d (inr (done seen))
  ]

  drain_entries-IsDone :
      (env : Env) (es : List BatchEntry) (d : Drained) → IsDone d → IsDone (drain_entries env es d)
  unfolding drain_entries
  drain_entries-IsDone env [] d done = done
  drain_entries-IsDone env (e ∷ es) d done = elim (Option-cases e.call_id) [
    | inl h ↦ rw (h, drain_entries) (drain_entries-IsDone env es d done)
    | inr (j, h) ↦
        rw (h, drain_entries)
          (drain_entries-IsDone env es (drain_one env j e.result d)
            (drain_one-IsDone env j e.result d done))
  ]

  release_unseen-keeps :
      (is seen : List ℕ) (d : Drained) → IsFree i d.db → IsFree i (release_unseen is seen d).db
  unfolding release_unseen
  release_unseen-keeps [] seen d free = free
  release_unseen-keeps (j ∷ js) seen d free = elim (Bool-cases (mem j seen)) [
    | inl e ↦ rw e (release_unseen-keeps js seen d free)
    | inr e ↦
        rw e (release_unseen-keeps js seen (release_one j d) (release-Frees i j d.db (inr free)))
  ]

  release_unseen-frees :
      (is seen : List ℕ) (d : Drained)
      → mem i is ≡ true
      → mem i seen ≡ false
      → IsFree i (release_unseen is seen d).db
  unfolding release_unseen
  release_unseen-frees [] seen d h unseen = absurd (ground arith)
  release_unseen-frees (j ∷ js) seen d h unseen = elim (Bool-cases (j == i)) [
    | inl e ↦
        let same : j ≡ i = (==_iff j i).0 e in
        let hidden : mem j seen ≡ false = rw same unseen in
        rw hidden
          (release_unseen-keeps js seen (release_one j d) (release-Frees i j d.db (inl same)))
    | inr e ↦
        let later : mem i js ≡ true = rw e at h in
        elim (Bool-cases (mem j seen)) [
          | inl m ↦ rw m (release_unseen-frees js seen d later unseen)
          | inr m ↦ rw m (release_unseen-frees js seen (release_one j d) later unseen)
        ]
  ]

  -- Draining an ended batch leaves none of its calls claimed for scoring: whatever the batch reports
  -- of a call, several times or not at all, the call is settled or back in the queue.
  pub drain_results-frees :
      (env : Env) (call_ids : List ℕ) (es : List BatchEntry) (db : Db)
      → mem i call_ids ≡ true
      → claimed CallStatus.scoring i (drain_results env call_ids es db).db ≡ none
  unfolding drain_results
  drain_results-frees env call_ids es db h =
      let d = drain_entries env es (nothing_drained db) in
      elim (Bool-cases (mem i d.seen)) [
        | inl seen ↦
            release_unseen-keeps (distinct call_ids) d.seen d
              (drain_entries-IsDone env es (nothing_drained db) (λ m. absurd (ground arith)) seen)
        | inr unseen ↦
            release_unseen-frees (distinct call_ids) d.seen d (mem-distinct i call_ids ∙ h) unseen
      ]
