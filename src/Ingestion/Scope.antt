-- ===== src/Ingestion/Scope.antt =====
-- AtamuraOKK/ingestion/service.py: `_apply_scope`, `_recompute_scope`, `refresh_qualification`.
-- What Bitrix knows of a client (its qualification, its category) is a parameter.
use atamura_okk.Base.{
  ℕ, ◌+◌, String, Bool, true, false, ◌&&◌, ◌||◌, not, Option, none, some, List, [], ◌∷◌, str_eq,
  ltb, leb, if◌then◌else◌, is_some, take, select, sort_by, ◌*◌, non_empty, ◌==◌,
}
use atamura_okk.Store.{CallStatus, Call, Db, status_eq, get, put}
use atamura_okk.Settings.{Settings}

-- `qualified` is true, false or unknown; `at` is the first entry into a qualified stage.
pub record Qualification : Type 0 where
  pub qualified : Option Bool
  pub at : Option ℕ

abbrev pub unknown_qualification : Qualification
unknown_qualification = record { qualified = none; at = none }

pub record IngestStats : Type 0 where
  pub analyzable : ℕ
  pub skipped : ℕ
  pub too_short : ℕ
  pub after_qualification : ℕ

abbrev pub no_stats : IngestStats
no_stats = record { analyzable = 0; skipped = 0; too_short = 0; after_qualification = 0 }

abbrev pub is_after : Option ℕ → Option ℕ → Bool
is_after (some started) (some at) = ltb at started
is_after _ _ = false

pub data Reason : Type 0 where
  too_short after_qualification : Reason

abbrev pub reason_text : Reason → String
reason_text too_short = "too_short"
reason_text after_qualification = "after_qualification"

-- The local `reason` of `_apply_scope`.
unfoldable pub skip_reason_of : Settings → Qualification → Call → Option Reason
skip_reason_of s q c =
    if ltb c.duration_sec s.ingest_min_duration_sec
    then some too_short
    else if s.ingest_until_qualified && is_after c.started_at q.at
    then some after_qualification
    else none

-- The two early returns of `_apply_scope`. The column `status` is a `String`, so a row that is read
-- from the table has a plain `str` there, and `call.status is CallStatus.SKIPPED` is false of it: the
-- second return is never taken, whatever the skip reason is.
unfoldable pub is_frozen : Call → Bool
is_frozen c = elim c.status [ CallStatus.new ↦ false | CallStatus.skipped ↦ false | _ ↦ true ]

abbrev count_skip : Reason → IngestStats → IngestStats
count_skip too_short st = record st { skipped = st.skipped + 1; too_short = st.too_short + 1 }
count_skip after_qualification st = record st {
  skipped = st.skipped + 1;
  after_qualification = st.after_qualification + 1;
}

abbrev skipped_row : Reason → Call → Call
skipped_row r c = record c {
  analyzable = false;
  status = CallStatus.skipped;
  skip_reason = some (reason_text r);
}

abbrev in_scope_row : Call → Call
in_scope_row c = record c { analyzable = true; status = CallStatus.new; skip_reason = none }

-- `_apply_scope`
unfoldable pub apply_scope : Settings → Qualification → Call → IngestStats → Call × IngestStats
unfolding is_frozen skip_reason_of
apply_scope s q c st = if is_frozen c then (c, st) else elim (skip_reason_of s q c) [
  | some r ↦ (skipped_row r c, count_skip r st)
  | none ↦ (in_scope_row c, record st { analyzable = st.analyzable + 1 })
]

-- The facts that a pass stamps on a row before it applies the scope rule.
unfoldable pub stamp : Qualification → Option String → Call → Call
stamp q category c = record c {
  client_qualified = q.qualified;
  client_qualified_at = q.at;
  client_category = category;
}

abbrev pub first_call : Bool → Call → Call
first_call b c = record c { is_first_call = b }

-- `ORDER BY started_at ASC, bitrix_row_id ASC`, missing values last.
abbrev key_le : Option ℕ → Option ℕ → Bool
key_le a none = true
key_le none (some b) = false
key_le (some a) (some b) = leb a b

abbrev key_lt : Option ℕ → Option ℕ → Bool
key_lt a b = not (key_le b a)

unfoldable pub history_le : Call → Call → Bool
history_le c d =
    key_lt c.started_at d.started_at
    || (key_le c.started_at d.started_at && key_le c.bitrix_row_id d.bitrix_row_id)

abbrev pub has_key : String → Call → Bool
has_key key c = elim c.client_key [ none ↦ false | some k ↦ str_eq k key ]

-- The inner loop of `_recompute_scope`: the mutated rows of one client, with the counters.
unfoldable pub scope_rows :
    Settings
    → Qualification
    → Option String
    → Bool
    → List Call
    → IngestStats
    → List Call × IngestStats
unfolding stamp apply_scope
scope_rows s q category first [] st = ([], st)
scope_rows s q category first (c ∷ cs) st =
    let (c', st1) = apply_scope s q (stamp q category (first_call first c)) st in
    let (cs', st2) = scope_rows s q category false cs st1 in (c' ∷ cs', st2)

-- Flush of several mutated rows.
unfoldable pub put_all : List Call → List Call → List Call
put_all [] calls = calls
put_all (c ∷ cs) calls = put_all cs (put c calls)

unfoldable pub recompute_client :
    Settings
    → (String → Qualification)
    → (String → Option String)
    → String
    → Db
    → IngestStats
    → Db × IngestStats
recompute_client s quals cats key db st =
    let rows = sort_by history_le (select (has_key key) db.calls) in
    let (rows', st') = scope_rows s (quals key) (cats key) true rows st in
    (record db { calls = put_all rows' db.calls }, st')

-- `_recompute_scope`, over the client keys of the pass.
unfoldable pub recompute_scope :
    Settings
    → (String → Qualification)
    → (String → Option String)
    → List String
    → Db
    → IngestStats
    → Db × IngestStats
unfolding recompute_client
recompute_scope s quals cats [] db st = (db, st)
recompute_scope s quals cats (key ∷ keys) db st =
    let (db', st') = recompute_client s quals cats key db st in
    recompute_scope s quals cats keys db' st'

-- `_REQUALIFY_WINDOW_DAYS`, in seconds.
abbrev pub requalify_window : ℕ
requalify_window = 7 * 86400

-- The WHERE clause of `refresh_qualification`.
unfoldable pub is_requalifiable : ℕ → Call → Bool
is_requalifiable now c =
    status_eq c.status CallStatus.new
    && (not (is_some c.claimed_at)
        && (not (is_some c.client_qualified_at)
            && (elim c.started_at [ none ↦ false | some at ↦ leb now (at + requalify_window) ])))

-- The query of `refresh_qualification`.
abbrev pub requalifiable : ℕ → ℕ → List Call → List Call
requalifiable now limit calls = take limit (select (is_requalifiable now) calls)

abbrev pub option_eq {ℓ} : {A : Type ℓ} → (A → A → Bool) → Option A → Option A → Bool
option_eq eq none none = true
option_eq eq (some a) (some b) = eq a b
option_eq eq _ _ = false

abbrev pub bool_eq : Bool → Bool → Bool
bool_eq true b = b
bool_eq false b = not b

-- What the UPDATE of a flush leaves in a column: the new value, if it is not the value that was read,
-- and else what the row holds by then.
abbrev pub written {ℓ} : {A : Type ℓ} → (A → A → Bool) → A → A → A → A
written eq read new held = if eq read new then held else new

-- The flush of a row that was read as `c` and then set to `c'`, into the row that the table holds.
unfoldable pub flush_row : Call → Call → Call → Call
flush_row c c' r = record r {
  client_qualified =
      written (option_eq bool_eq) c.client_qualified c'.client_qualified r.client_qualified;
  client_qualified_at =
      written (option_eq ◌==◌) c.client_qualified_at c'.client_qualified_at r.client_qualified_at;
  client_category =
      written (option_eq str_eq) c.client_category c'.client_category r.client_category;
  analyzable = written bool_eq c.analyzable c'.analyzable r.analyzable;
  status = written status_eq c.status c'.status r.status;
  skip_reason = written (option_eq str_eq) c.skip_reason c'.skip_reason r.skip_reason;
}

abbrev pub flush_into : Call → Call → Option Call → List Call → List Call
flush_into c c' none rows = rows
flush_into c c' (some r) rows = flush_row c c' r ∷ rows

-- The loop of `refresh_qualification` over the rows that its query gave, with the flush of each into
-- the rows that `calls` holds by then.
unfoldable pub refresh_rows :
    Settings
    → (String → Qualification)
    → (String → Option String)
    → List Call
    → List Call
    → IngestStats
    → List Call × IngestStats
unfolding stamp apply_scope flush_row
refresh_rows s quals cats calls [] st = ([], st)
refresh_rows s quals cats calls (c ∷ cs) st = elim (non_empty c.client_key) [
  | none ↦ refresh_rows s quals cats calls cs st
  | some key ↦
      let (c', st1) = apply_scope s (quals key) (stamp (quals key) (cats key) c) st in
      let (cs', st2) = refresh_rows s quals cats calls cs st1 in
      (flush_into c c' (get c.id calls) cs', st2)
]

-- `refresh_qualification`. The query sees `read`; then the pass waits for Bitrix, without a lock on
-- the rows, and its flush at the end finds `db`.
unfoldable pub refresh_qualification :
    ℕ
    → Settings
    → (String → Qualification)
    → (String → Option String)
    → ℕ
    → List Call
    → Db
    → Db × IngestStats
unfolding refresh_rows
refresh_qualification now s quals cats limit read db =
    let (rows, st) = refresh_rows s quals cats db.calls (requalifiable now limit read) no_stats in
    (record db { calls = put_all rows db.calls }, st)
