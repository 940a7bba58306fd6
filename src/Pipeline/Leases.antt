-- ===== src/Pipeline/Leases.antt =====
-- Claims as leases (AtamuraOKK/dispatch/claim.py): who gets a call, for how long, and what the
-- reversal of a stale claim gives back.
use atamura_okk.Base.{
  ℕ, ◌+◌, ◌≤◌, ◌≡◌, refl, sym, subst, ap, ◌∙◌, inl, inr, Bool, true, false, ◌&&◌, not, Option, none,
  some, List, arith, ltb, if◌then◌else◌, Bool-cases, Option-cases, ◌<◌, and_true, mem, mem-map_elim,
  All, All-take, All-sort_by, take, select, sort_by, is_some,
}
use atamura_okk.Store.{CallStatus, Call, Db, status_eq, get, started_le, claimed}
use atamura_okk.Store.Laws.{status_eq_refl, get-id, ids-update_where, get-update_where, alter}
use atamura_okk.Settings.{Settings}
use atamura_okk.Dispatch.Claim.{
  is_claimable, after_since, before_until, candidates, claim_row, claim_ready, is_stale,
  reclaim_row, reclaim_stale,
}
use atamura_okk.Pipeline.Rows.{IsStage, stage_pair}
use atamura_okk.Pipeline.System.{System, Reach}
use atamura_okk.Pipeline.Keys.{IsDistinct, HasKeys}
use atamura_okk.Pipeline.Tracks.Claims.{IsHit, select_rows, status_eq→eq}
use atamura_okk.Pipeline.Tracks.Steps.{Reach-HasKeys}
use atamura_okk.Stages.Batch.{heartbeat, heartbeat_row}
use atamura_okk.Pipeline.Tracks.Settling.{claimed_facts}
use atamura_okk.Pipeline.Graph.{row_ok}

-- The start of a call is in the window of a claim; a bound that is not given does not count.
abbrev pub StartsSince : Option ℕ → Call → Type 0
StartsSince none c = Unit {0}
StartsSince (some t) c = (at : ℕ) × (c.started_at ≡ some at) × (t ≤ at)

abbrev pub StartsUntil : Option ℕ → Call → Type 0
StartsUntil none c = Unit {0}
StartsUntil (some t) c = (at : ℕ) × (c.started_at ≡ some at) × (at < t)

starts_since : (o : Option ℕ) (c : Call) → after_since o c.started_at ≡ true → StartsSince o c
starts_since none c h = tt
starts_since (some t) c h = elim (Option-cases c.started_at) [
  | inl e ↦ absurd (cc (rw e at h))
  | inr (at, e) ↦ (at, e, (let k = rw e at h in ground arith))
]

starts_until : (o : Option ℕ) (c : Call) → before_until o c.started_at ≡ true → StartsUntil o c
starts_until none c h = tt
starts_until (some t) c h = elim (Option-cases c.started_at) [
  | inl e ↦ absurd (cc (rw e at h))
  | inr (at, e) ↦ (at, e, (let k = rw e at h in ground arith))
]

module _ (now : ℕ) (locked : ℕ → Bool) (src dst : CallStatus) (limit : ℕ) (since until : Option ℕ)
    (db : Db) (keys : HasKeys db) where
  abbrev test : Call → Bool
  test c = is_claimable src since until c && not (locked c.id)

  abbrev ordered : List Call
  ordered = sort_by started_le (select test db.calls)

  abbrev IsOpenRow : Call → Type 0
  IsOpenRow = IsHit db.calls keys test

  ordered_rows : All IsOpenRow ordered
  ordered_rows =
      All-sort_by IsOpenRow started_le (select test db.calls) (select_rows db.calls keys test)

  abbrev grant : Db × List ℕ
  grant = claim_ready now locked src dst limit since until db

  -- An id that a claim returns, with the row that it had.
  pub granted_row :
      (i : ℕ)
      → mem i grant.1 ≡ true
      → (c : Call) × (get i db.calls ≡ some c)
        × (mem i (candidates locked src limit since until db.calls) ≡ true)
  unfolding claim_ready
  granted_row i m =
      let hit : Call → Bool = λ c. mem c.id (candidates locked src limit since until db.calls) in
      let (c, at_i, (row, chosen)) =
        mem-map_elim (IsHit db.calls keys hit) (λ r. r.id) i (select hit db.calls) m
          (select_rows db.calls keys hit) in
      (
        c,
        subst (λ k. get k db.calls ≡ some c) at_i row,
        subst (λ k. mem k (candidates locked src limit since until db.calls) ≡ true) at_i chosen,
      )

  pub candidate_facts :
      (i : ℕ) {c : Call}
      → get i db.calls ≡ some c
      → mem i (candidates locked src limit since until db.calls) ≡ true
      → (is_claimable src since until c ≡ true) × (locked i ≡ false)
  unfolding candidates
  candidate_facts i {c} found m =
      let (d, at_i, (row, ok)) =
        mem-map_elim IsOpenRow (λ r. r.id) i (take limit ordered) m
          (All-take IsOpenRow limit ordered ordered_rows) in
      let same_row : some d ≡ some c =
        sym (subst (λ k. get k db.calls ≡ some d) at_i row) ∙ found in
      let ready : test c ≡ true = cc (same_row, ok) in
      let key : c.id ≡ i = get-id i db.calls found in ground arith

  pub granted_after :
      (i : ℕ) {c : Call}
      → get i db.calls ≡ some c
      → mem i (candidates locked src limit since until db.calls) ≡ true
      → get i grant.0.calls ≡ some (claim_row dst now c)
  unfolding claim_ready claim_row
  granted_after i {c} found m =
      let key : c.id ≡ i = get-id i db.calls found in
      rw (get-update_where _ (claim_row dst now) (λ r. refl) i db.calls)
        (rw found (rw (key, m) refl))

  claimed_row :
      (i : ℕ)
      → mem i grant.1 ≡ true
      → (c : Call) × (get i db.calls ≡ some c)
        × (is_claimable src since until c ≡ true)
        × (locked i ≡ false)
        × (get i grant.0.calls ≡ some (claim_row dst now c))
  claimed_row i m =
      let (c, found, chosen) = granted_row i m in
      let (ok, free) = candidate_facts i found chosen in
      (c, found, ok, free, granted_after i found chosen)

  -- What a claim grants, in a table with distinct ids: each id that it returns is the id of a call that was ready, analyzable and
  -- started within the time window, and that no other transaction had locked; that call is now in
  -- flight under the time of the claim, and nothing else of it changed.
  pub claim_ready-grants :
      (i : ℕ)
      → mem i grant.1 ≡ true
      → (c : Call) × (get i db.calls ≡ some c)
        × (c.status ≡ src)
        × (c.analyzable ≡ true)
        × StartsSince since c
        × StartsUntil until c
        × (locked i ≡ false)
        × (get i grant.0.calls ≡ some (record c { status = dst; claimed_at = some now }))
  unfolding claim_row is_claimable
  claim_ready-grants i m =
      let (c, found, ok, free, after) = claimed_row i m in
      (
        c,
        found,
        status_eq→eq _ _ (ground arith),
        ground arith,
        starts_since since c (ground arith),
        starts_until until c (ground arith),
        free,
        after,
      )

-- A ready row is not claimed, so a claim and its reversal give it back.
restored :
    (src dst : CallStatus) (now : ℕ) (c : Call)
    → c.status ≡ src
    → c.claimed_at ≡ none
    → reclaim_row src (claim_row dst now c) ≡ c
unfolding reclaim_row claim_row
restored src dst now c in_status free =
    ap (λ st. record c { status = st; claimed_at = none }) (sym in_status)
    ∙ ap (λ at. record c { claimed_at = at }) (sym free)

by_time :
    (now later ttl : ℕ) (src dst : CallStatus) (c : Call)
    → reclaim_row src (claim_row dst now c) ≡ c
    → alter
        (λ r. status_eq r.status dst && is_stale later ttl r.claimed_at)
        (reclaim_row src)
        (some (claim_row dst now c))
      ≡ some (if ltb (now + ttl) later then c else claim_row dst now c)
unfolding claim_row
by_time now later ttl src dst c back = elim (Bool-cases (ltb (now + ttl) later)) [
  | inl e ↦ rw e (rw (status_eq_refl dst) (ap some back))
  | inr e ↦ rw e (rw (status_eq_refl dst) refl)
]

module _ (s : Settings) (now : ℕ) (locked : ℕ → Bool) {src dst : CallStatus} (st : IsStage src dst)
    (limit : ℕ) (since until : Option ℕ) {sys : System} (reached : Reach s sys) where
  abbrev lease : Db × List ℕ
  lease = claim_ready now locked src dst limit since until sys.db

  granted :
      (i : ℕ)
      → mem i lease.1 ≡ true
      → (c : Call) × (get i sys.db.calls ≡ some c)
        × (is_claimable src since until c ≡ true)
        × (locked i ≡ false)
        × (get i lease.0.calls ≡ some (claim_row dst now c))
  granted = claimed_row now locked src dst limit since until sys.db (Reach-HasKeys s reached)

  lease-HasKeys : HasKeys lease.0
  unfolding claim_ready claim_row
  lease-HasKeys =
      subst IsDistinct (sym (ids-update_where _ (claim_row dst now) (λ r. refl) sys.db.calls))
        (Reach-HasKeys s reached)

  -- In a state that is reachable as long as no requalification pass flushes a call that has changed
  -- since the pass read it, a claimed call is at no second claimer: a claim of any stage that follows returns none of the
  -- ids that the first one returned, whatever its time, locks, limit and window are.
  pub claim-exclusive :
      (now' : ℕ) (locked' : ℕ → Bool) {src' dst' : CallStatus} (st' : IsStage src' dst')
      (limit' : ℕ) (since' until' : Option ℕ) (i : ℕ)
      → mem i lease.1 ≡ true
      → mem i (claim_ready now' locked' src' dst' limit' since' until' lease.0).1 ≡ false
  unfolding is_claimable claim_row
  claim-exclusive now' locked' {src'} {dst'} st' limit' since' until' i m =
      elim (Bool-cases
        (mem i (claim_ready now' locked' src' dst' limit' since' until' lease.0).1)) [
          | inr e ↦ e
          | inl again ↦
              let (c, found, ok, free, after) = granted i m in
              let (d, found', ok', free', after') =
                claimed_row now' locked' src' dst' limit' since' until' lease.0 lease-HasKeys i
                  again in
              let same_row : some d ≡ some (claim_row dst now c) = sym found' ∙ after in
              let (ready, rest) = and_true (status_eq d.status src') _ ok' in
              let left = stage_pair st in
              let right = stage_pair st' in
              let in_status : d.status ≡ dst = cc same_row in absurd (ground arith)
        ]

  -- In a state that is reachable as long as no requalification pass flushes a call that has changed
  -- since the pass read it, a claim is a lease of `ttl` seconds. The reversal of stale claims leaves the claimed call as it
  -- is up to that time; after it, it gives the call's row back as it was before the claim.
  pub claim-lease :
      (later ttl : ℕ) (i : ℕ)
      → mem i lease.1 ≡ true
      → (c : Call) × (get i sys.db.calls ≡ some c)
        × (get i (reclaim_stale later dst src ttl lease.0).0.calls
            ≡ some (if ltb (now + ttl) later then c else claim_row dst now c))
  unfolding reclaim_stale is_claimable
  claim-lease later ttl i m =
      let (c, found, ok, free, after) = granted i m in
      let in_status : c.status ≡ src = status_eq→eq c.status src (and_true _ _ ok).0 in
      let pair = stage_pair st in
      let held : is_some c.claimed_at ≡ false =
        ground (arith, (row_ok s reached i found).claim_held) in
      let idle : c.claimed_at ≡ none = ground arith in
      (
        c,
        found,
        rw (get-update_where _ (reclaim_row src) (λ r. unfold reclaim_row in refl) i lease.0.calls)
            (rw after (by_time now later ttl src dst c (restored src dst now c in_status idle))),
      )

-- A heartbeat renews the lease of a submitted call: up to `ttl` seconds after it, the reversal of
-- stale claims leaves the call as it is, claimed for scoring at the time of the heartbeat.
pub heartbeat-lease :
    (now later ttl : ℕ) (is : List ℕ) (i : ℕ) (db : Db) {c : Call}
    → claimed CallStatus.scoring i db ≡ some c
    → mem i is ≡ true
    → later ≤ now + ttl
    → get i
        (reclaim_stale later CallStatus.scoring CallStatus.transcribed ttl
          (heartbeat now is db)).0.calls
      ≡ some (record c { claimed_at = some now })
unfolding reclaim_stale heartbeat
heartbeat-lease now later ttl is i db {c} h m within =
    let (found, in_status) = claimed_facts CallStatus.scoring i db h in
    let key : c.id ≡ i = get-id i db.calls found in
    let renewed : Call = record c { claimed_at = some now } in
    let beaten : get i (heartbeat now is db).calls ≡ some renewed =
      get-update_where _ (heartbeat_row now) (λ r. refl) i db.calls
      ∙ rw found (rw (key, m) (rw in_status refl)) in
    let fresh : ltb (now + ttl) later ≡ false = ground arith in
    rw
      (get-update_where _ (reclaim_row CallStatus.transcribed) (λ r. unfold reclaim_row in refl) i
        (heartbeat now is db).calls)
      (rw beaten (rw in_status (rw fresh refl)))
