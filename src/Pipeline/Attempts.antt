-- ===== src/Pipeline/Attempts.antt =====
-- The attempt counter: it never falls, it is bounded, and a dead letter stays one.
use atamura_okk.Base.{ℕ, ◌+◌, ◌≤◌, ◌<◌, ◌≡◌, refl, subst, Bool, Option, none, some, arith, max}
use atamura_okk.Store.{CallStatus, Call, get}
use atamura_okk.Settings.{Settings}
use atamura_okk.Ingestion.Upsert.{inserted}
use atamura_okk.Stages.Download.{max_attempts}
use atamura_okk.Pipeline.Rows.{RowStep, Evolves, row_updates, premise}
use atamura_okk.Pipeline.System.{System, Reach, Run, Reach-Run}
use atamura_okk.Pipeline.Tracks.Steps.{Step-Moves, Reach-HasKeys}

-- Where a call waits for its download, a counter at the cap would have dead-lettered it.
abbrev pub attempt_cap : Settings → ℕ
attempt_cap s = max max_attempts s.max_retries

-- The bound that each status keeps.
abbrev pub AttemptsWithin : ℕ → CallStatus → ℕ → Type 0
AttemptsWithin cap CallStatus.new n = n < cap
AttemptsWithin cap CallStatus.downloading n = n < cap
AttemptsWithin cap CallStatus.skipped n = n < cap
AttemptsWithin cap CallStatus.failed n = n ≤ cap + 1
AttemptsWithin cap _ n = n ≤ cap

abbrev pub IsBounded : Settings → Option Call → Type 0
IsBounded s none = Unit {0}
IsBounded s (some c) = AttemptsWithin (attempt_cap s) c.status c.attempts

-- The facts about two versions of one row.
pub record Keeps (s : Settings) (c c' : Call) : Type 0 where
  pub counted : c.attempts ≤ c'.attempts
  pub dead_stays :
      c.status ≡ CallStatus.failed
      → s.max_retries ≤ c.attempts
      → (c'.status ≡ CallStatus.failed) × (c'.attempts ≡ c.attempts)

module _ (s : Settings) where
  RowStep-Keeps : {t t' : Bool} {c c' : Call} → RowStep s t t' c c' → Keeps s c c'
  unfolding row_updates
  RowStep-Keeps (RowStep.same e) = ground arith
  RowStep-Keeps r = ground (arith, premise r)

  RowStep-IsBounded :
      {t t' : Bool} {c c' : Call}
      → RowStep s t t' c c'
      → IsBounded s (some c)
      → IsBounded s (some c')
  unfolding row_updates
  RowStep-IsBounded (RowStep.same e) h = h
  RowStep-IsBounded r h = ground (arith, premise r)

  Evolves-IsBounded :
      {t t' : Bool} {o o' : Option Call} → Evolves s t t' o o' → IsBounded s o → IsBounded s o'
  Evolves-IsBounded (Evolves.absent e) h = h
  Evolves-IsBounded (Evolves.appears now i f e) h = unfold inserted in omega arith
  Evolves-IsBounded (Evolves.row st) h = RowStep-IsBounded st h

  all-IsBounded : {sys : System} → Reach s sys → (j : ℕ) → IsBounded s (get j sys.db.calls)
  unfolding get
  all-IsBounded Reach.start j = tt
  all-IsBounded (Reach.next r st) j =
      Evolves-IsBounded ((Step-Moves s st (Reach-HasKeys s r)).1 j) (all-IsBounded r j)

  -- In every state that is reachable as long as no requalification pass flushes a call that has changed
  -- since the pass read it, the attempt counter of a call is within the bound of its status: below
  -- the cap while the call waits for or is in its download (or is skipped), at most one above the
  -- cap once it has failed, and at most the cap in every other status. The cap is the larger of the
  -- download's own limit and `max_retries`.
  pub Reach-attempts :
      {sys : System}
      → Reach s sys
      → (j : ℕ) {c : Call} → get j sys.db.calls ≡ some c
      → AttemptsWithin (attempt_cap s) c.status c.attempts
  Reach-attempts r j found = subst (IsBounded s) found (all-IsBounded r j)

  -- A row survives every step, and keeps what `Keeps` says.
  evolved :
      {t t' : Bool} {c : Call} {o' : Option Call}
      → Evolves s t t' (some c) o'
      → (c' : Call) × (o' ≡ some c') × Keeps s c c'
  evolved (Evolves.row {c' = c'} st) = (c', refl, RowStep-Keeps st)

  Keeps-trans : {c d e : Call} → Keeps s c d → Keeps s d e → Keeps s c e
  Keeps-trans h k = ground arith

  -- Along every run from a reachable state, as long as no requalification pass flushes a call that has
  -- changed since the pass read it, a call stays in the table, its attempt counter never
  -- falls, and a dead letter (failed with its attempts used up) stays failed with the same count.
  pub Run-Keeps :
      {sys sys' : System}
      → Reach s sys
      → Run s sys sys'
      → (j : ℕ) {c : Call} → get j sys.db.calls ≡ some c
      → (c' : Call) × (get j sys'.db.calls ≡ some c') × Keeps s c c'
  Run-Keeps r Run.here j {c} found = (c, found, ground arith)
  Run-Keeps r (Run.then {sys'} run st) j found =
      let (d, mid, kept) = Run-Keeps r run j found in
      let follows = (Step-Moves s st (Reach-HasKeys s (Reach-Run r run))).1 j in
      let (c', last, kept') = evolved (rw mid at follows) in (c', last, Keeps-trans kept kept')
