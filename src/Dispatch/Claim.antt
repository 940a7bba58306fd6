-- ===== src/Dispatch/Claim.antt =====
-- AtamuraOKK/dispatch/claim.py: claiming, and the reversal of stale claims.
-- A claim is one UPDATE statement, so it is one step on the database. `locked` are the rows that
-- other transactions hold at that moment (`SKIP LOCKED`), `now` is the transaction's time.
use atamura_okk.Base.{
  ℕ, ◌+◌, String, Bool, true, false, ◌&&◌, not, Option, none, some, List, [], ◌∷◌, ltb, leb,
  if◌then◌else◌, length, take, select, sort_by, mem,
}
use atamura_okk.Store.{CallStatus, Call, Db, status_eq, update_where, ids, started_le}
use atamura_okk.Settings.{Settings}

pub record Stage : Type 0 where
  pub name : String
  pub ready : CallStatus
  pub in_flight : CallStatus
  pub stale_seconds : ℕ
  pub today_only : Bool

-- `auto_since`: the cutoff of automatic scoring; `today` is midnight in the report timezone.
abbrev pub auto_since : Settings → ℕ → Option ℕ
auto_since s today = if s.score_auto_today_only then some today else none

-- `_stages`
abbrev pub stages : Settings → List Stage
stages s =
    record {
      name = "download";
      ready = CallStatus.new;
      in_flight = CallStatus.downloading;
      stale_seconds = s.claim_stale_seconds_download;
      today_only = false;
    }
    ∷ record {
      name = "transcribe";
      ready = CallStatus.downloaded;
      in_flight = CallStatus.transcribing;
      stale_seconds = s.claim_stale_seconds_transcribe;
      today_only = false;
    }
    ∷ record {
      name = "score";
      ready = CallStatus.transcribed;
      in_flight = CallStatus.scoring;
      stale_seconds = s.claim_stale_seconds_score;
      today_only = true;
    }
    ∷ []

-- A comparison with a missing `started_at` is not true in SQL.
abbrev pub after_since : Option ℕ → Option ℕ → Bool
after_since none at = true
after_since (some since) none = false
after_since (some since) (some at) = leb since at

abbrev pub before_until : Option ℕ → Option ℕ → Bool
before_until none at = true
before_until (some until) none = false
before_until (some until) (some at) = ltb at until

-- The conditions of the WHERE clause.
unfoldable pub is_claimable : CallStatus → Option ℕ → Option ℕ → Call → Bool
is_claimable src since until c =
    status_eq c.status src
    && (c.analyzable && (after_since since c.started_at && before_until until c.started_at))

-- The ids of the subquery `candidates`.
unfoldable pub candidates : (ℕ → Bool) → CallStatus → ℕ → Option ℕ → Option ℕ → List Call → List ℕ
candidates locked src limit since until calls = ids (
    take limit (
      sort_by started_le (select (λ c. is_claimable src since until c && not (locked c.id)) calls)))

unfoldable pub claim_row : CallStatus → ℕ → Call → Call
claim_row dst now c = record c { status = dst; claimed_at = some now }

unfoldable pub claim_ready :
    ℕ → (ℕ → Bool) → CallStatus → CallStatus → ℕ → Option ℕ → Option ℕ → Db → Db × List ℕ
claim_ready now locked src dst limit since until db =
    let chosen = candidates locked src limit since until db.calls in
    let hit : Call → Bool = λ c. mem c.id chosen in
    (record db { calls = update_where hit (claim_row dst now) db.calls }, ids (select hit db.calls))

-- `claimed_at < now - ttl`; a missing time compares as not true.
abbrev pub is_stale : ℕ → ℕ → Option ℕ → Bool
is_stale now ttl none = false
is_stale now ttl (some at) = ltb (at + ttl) now

unfoldable pub reclaim_row : CallStatus → Call → Call
reclaim_row src c = record c { status = src; claimed_at = none }

unfoldable pub reclaim_stale : ℕ → CallStatus → CallStatus → ℕ → Db → Db × ℕ
reclaim_stale now in_flight src ttl db =
    let hit : Call → Bool = λ c. status_eq c.status in_flight && is_stale now ttl c.claimed_at in
    (
      record db { calls = update_where hit (reclaim_row src) db.calls },
      length (select hit db.calls),
    )

-- The loop of `reclaim_all_stale` over the stages, one transaction each.
unfoldable pub reclaim_stages : ℕ → List Stage → Db → Db × ℕ
reclaim_stages now [] db = (db, 0)
reclaim_stages now (st ∷ sts) db =
    let (db1, n) = reclaim_stale now st.in_flight st.ready st.stale_seconds db in
    let (db2, total) = reclaim_stages now sts db1 in (db2, n + total)

unfoldable pub reclaim_all_stale : ℕ → Settings → Db → Db × ℕ
reclaim_all_stale now s db = reclaim_stages now (stages s) db
