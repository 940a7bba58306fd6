-- ===== src/Ingestion/Race.antt =====
-- What a pass of `refresh_qualification` does to a call that moved on while the pass waited for Bitrix
-- (AtamuraOKK/ingestion/service.py).
use atamura_okk.Base.{
  str_eq-ne, ℕ, ◌<◌, ◌≤◌, ◌≡◌, ◌≢◌, refl, sym, ap, ◌∙◌, subst, String, true, false, Option, none,
  some, List, [], ◌∷◌, arith, non_empty, str_eq,
}
use atamura_okk.Store.{CallStatus, Call, Db, get, status_eq}
use atamura_okk.Store.Laws.{get-id, get-put_found}
use atamura_okk.Settings.{Settings}
use atamura_okk.Ingestion.Scope.{
  Reason, Qualification, apply_scope, stamp, requalifiable, option_eq, no_stats, written,
  refresh_rows, flush_row, put_all, refresh_qualification, skip_reason_of, is_frozen,
}

-- The row that was claimed, or failed, in the meantime, and what the flush makes of it.
abbrev pub Overwritten : Call → Call → Type 0
Overwritten r r' =
    (r'.status ≡ CallStatus.skipped)
    × (r'.skip_reason ≡ some "after_qualification")
    × (r'.claimed_at ≡ r.claimed_at)
    × (r'.attempts ≡ r.attempts)
    × (r'.error ≡ r.error)

module _ (s : Settings) (q : Qualification) (category : Option String) (c r : Call) (started at : ℕ)
    (until_qualified : s.ingest_until_qualified ≡ true)
    (long : s.ingest_min_duration_sec ≤ c.duration_sec) (is_new : c.status ≡ CallStatus.new)
    (no_reason : c.skip_reason ≡ none) (starts : c.started_at ≡ some started)
    (qualified : q.at ≡ some at) (late : at < started) where
  abbrev set : Call
  set = (apply_scope s q (stamp q category c) no_stats).0

  reason : skip_reason_of s q (stamp q category c) ≡ some Reason.after_qualification
  unfolding skip_reason_of stamp
  reason = rw (until_qualified, starts, qualified) (ground arith)

  unfrozen : is_frozen (stamp q category c) ≡ false
  unfolding is_frozen stamp
  unfrozen = rw is_new refl

  abbrev skipped_row : Call
  skipped_row = record (stamp q category c) {
    analyzable = false;
    status = CallStatus.skipped;
    skip_reason = some "after_qualification";
  }

  set_row : (apply_scope s q (stamp q category c) no_stats).0 ≡ skipped_row
  unfolding apply_scope stamp
  set_row = rw (unfrozen, reason, apply_scope) refl

  flush-Overwritten : Overwritten r (flush_row c set r)
  unfolding flush_row stamp
  flush-Overwritten =
      subst (λ d. Overwritten r (flush_row c d r)) (sym set_row)
        (
          subst (λ st. written status_eq st CallStatus.skipped r.status ≡ CallStatus.skipped)
              (sym is_new) refl,
          subst
              (λ o.
                written (option_eq str_eq) o (some "after_qualification") r.skip_reason
                ≡ some "after_qualification")
              (sym no_reason) refl,
          refl,
          refl,
          refl,
        )

-- Under the until-qualified rule, let the query of a pass give one call, which is NEW without a skip
-- reason, long enough, and of a client with a key whose qualification Bitrix now dates before the
-- call's start. Whatever the row of that call is by the time of the flush (claimed for download,
-- settled, given up), the flush leaves it SKIPPED as after qualification, with the claim time, the
-- attempts and the error that it has by then.
pub refresh_qualification-overwrites :
    (now : ℕ) (s : Settings) (quals : String → Qualification) (cats : String → Option String)
    (limit : ℕ) (read : List Call) (db : Db) {c r : Call} {key : String} {started at : ℕ}
    → s.ingest_until_qualified ≡ true
    → requalifiable now limit read ≡ c ∷ []
    → c.status ≡ CallStatus.new
    → c.skip_reason ≡ none
    → s.ingest_min_duration_sec ≤ c.duration_sec
    → c.started_at ≡ some started
    → c.client_key ≡ some key
    → key ≢ ""
    → (quals key).at ≡ some at
    → at < started
    → get c.id db.calls ≡ some r
    → (r' : Call) × (get c.id (refresh_qualification now s quals cats limit read db).0.calls
        ≡ some r')
      × Overwritten r r'
unfolding refresh_qualification refresh_rows put_all
refresh_qualification-overwrites now s quals cats limit read db {c} {r} {key} {started} {at} until
      query is_new no_reason long starts keyed full qualified late found =
    let named : non_empty c.client_key ≡ some key =
      ap non_empty keyed ∙ rw (str_eq-ne key "" full) refl in
    let row =
      flush_row c
        (set s (quals key) (cats key) c r started at until long is_new no_reason starts qualified
          late)
        r in
    (
      row,
      rw query (
          rw (named, found, refresh_rows)
            (get-put_found c.id row db.calls (get-id c.id db.calls found) found)),
      flush-Overwritten s (quals key) (cats key) c r started at until long is_new no_reason starts
          qualified late,
    )
