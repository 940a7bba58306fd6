-- ===== src/Pipeline/DeadLetters.antt =====
-- Which failed calls can be retried (AtamuraOKK/ops/retry.py against the download's attempt limit).
use atamura_okk.Base.{ℕ, ◌≤◌, ◌<◌, ◌≡◌, ◌≢◌, subst, Bool, false, Option, none, some, arith}
use atamura_okk.Store.{CallStatus, Call, get}
use atamura_okk.Settings.{Settings}
use atamura_okk.Ingestion.Upsert.{inserted}
use atamura_okk.Ops.Retry.{Route, route}
use atamura_okk.Stages.Download.{max_attempts}
use atamura_okk.Stages.Transcribe.{is_present}
use atamura_okk.Pipeline.Rows.{RowStep, Evolves, row_updates, premise}
use atamura_okk.Pipeline.System.{System, Reach}
use atamura_okk.Pipeline.Tracks.Steps.{flags, Step-Moves, Reach-HasKeys}
use atamura_okk.Pipeline.Invariant.{IsRowOk, IsOk, Reach-IsSound}

-- A call that failed without a recording has used up the download's attempts.
abbrev IsSpent : Call → Type 0
IsSpent c =
    c.status ≡ CallStatus.failed → is_present c.audio_object_key ≡ false → max_attempts ≤ c.attempts

abbrev AreSpent : Option Call → Type 0
AreSpent none = Unit {0}
AreSpent (some c) = IsSpent c

module _ (s : Settings) where
  RowStep-IsSpent :
      {t t' : Bool} {c c' : Call} → RowStep s t t' c c' → IsRowOk t c → IsSpent c → IsSpent c'
  unfolding row_updates
  RowStep-IsSpent (RowStep.same e) ok h a b = h a b
  RowStep-IsSpent r ok h a b = ground (arith, premise r)

  Evolves-AreSpent :
      {t t' : Bool} {o o' : Option Call} → Evolves s t t' o o' → IsOk t o → AreSpent o → AreSpent o'
  Evolves-AreSpent (Evolves.absent e) ok h = tt
  Evolves-AreSpent (Evolves.appears now i f e) ok h = λ a b. unfold inserted in ground arith
  Evolves-AreSpent (Evolves.row st) ok h = RowStep-IsSpent st ok h

  all_spent : {sys : System} → Reach s sys → (j : ℕ) → AreSpent (get j sys.db.calls)
  unfolding get
  all_spent Reach.start j = tt
  all_spent (Reach.next r st) j =
      Evolves-AreSpent ((Step-Moves s st (Reach-HasKeys s r)).1 j) (Reach-IsSound s r j)
        (all_spent r j)

  -- As long as no requalification pass flushes a call that has changed since the pass read it, and while
  -- `max_retries` is at most the download's own limit, as in the defaults, no failed call that
  -- has attempts left is ever sent back to NEW: in a reachable state such a call has its recording,
  -- with or without a transcript.
  pub Reach-no_redownload :
      {sys : System}
      → Reach s sys
      → s.max_retries ≤ max_attempts
      → (j : ℕ) {c : Call} → get j sys.db.calls ≡ some c
      → c.status ≡ CallStatus.failed
      → c.attempts < s.max_retries
      → route (flags sys.db j) c ≢ Route.to_new
  unfolding route
  Reach-no_redownload {sys} r within j {c} found failed_call left h =
      let spent : IsSpent c = subst AreSpent found (all_spent r j) in
      ground (arith, spent failed_call)
