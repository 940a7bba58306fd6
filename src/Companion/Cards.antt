-- ===== src/Companion/Cards.antt =====
-- AtamuraOKK/web/api/v1/hygiene.py: the criteria over the deals of a period. What Bitrix answers is
-- an argument, with nothing for a read that failed. Times are in seconds and percentages in tenths;
-- titles, links and texts for people are left out, so a failing card is its id.
use Prim.Native.Nat.{min}
use atamura_okk.Base.{
  ℕ, ◌+◌, ◌*◌, String, Bool, true, false, ◌&&◌, ◌||◌, not, Option, none, some, List, [], ◌∷◌,
  length, take, select, mem, ltb, leb, ◌==◌, str_eq, if◌then◌else◌,
}
use atamura_okk.Companion.Ints.{ℤ, pos, round_fraction, times}

-- A questionnaire field of a deal.
pub data Value : Type 0 where
  missing : Value
  listed : ℕ → Value
  text : String → Value

-- A row of `_period_deals`. `last_activity` is the time of `LAST_ACTIVITY_TIME`, if it parses.
pub record Card : Type 0 where
  pub id : ℕ
  pub stage_id : String
  pub closed : String
  pub stage_semantic_id : String
  pub last_activity : Option ℕ
  pub fields : String → Value

-- `str.strip` and `str.upper`.
pub record Text : Type 0 where
  pub strip : String → String
  pub upper : String → String

-- The values of `settings` that the screen reads.
pub record HygieneSettings : Type 0 where
  pub anketa_fields : List String
  pub norm_pct : ℕ
  pub deals_max_scan : ℕ
  pub stale_days : ℕ
  pub notes_max_deals : ℕ
  pub notes_max_calls : ℕ
  pub failed_max_items : ℕ
  pub note_min_chars : ℕ
  pub note_template_marker : String
  pub cache_ttl_seconds : ℕ

-- `_TASK_STAGES`, as far as it is read: the stages at which a task is required.
abbrev pub task_stages : List (String × Bool)
task_stages =
    ("C24:NEW", false)
    ∷ ("C24:PREPARATION", false)
    ∷ ("C24:UC_OPEENZ", true)
    ∷ ("C24:UC_VL3EHH", false)
    ∷ ("C24:UC_LS7DKY", false)
    ∷ ("C24:PREPAYMENT_INVOIC", true)
    ∷ ("C24:EXECUTING", true)
    ∷ ("C24:FINAL_INVOICE", true)
    ∷ ("C24:UC_9OBT14", true)
    ∷ []

abbrev pub rule_of : List (String × Bool) → String → Bool
rule_of [] stage = false
rule_of ((s, required) ∷ rest) stage = if str_eq s stage then required else rule_of rest stage

-- `_requires_task`
unfoldable pub requires_task : String → Bool
requires_task stage = rule_of task_stages stage

-- `_ANKETA_STAGES`
abbrev pub anketa_stages : List String
anketa_stages =
    "C24:PREPAYMENT_INVOIC" ∷ "C24:EXECUTING" ∷ "C24:FINAL_INVOICE" ∷ "C24:UC_9OBT14" ∷ []

abbrev pub contains : String → List String → Bool
contains s [] = false
contains s (t ∷ ts) = str_eq t s || contains s ts

-- `_anketa_due`
unfoldable pub anketa_due : String → Bool
anketa_due stage = contains stage anketa_stages

-- `_pct`. At a tie, which only a base that 16 divides can have, the double that the source rounds may
-- lie on either side of it, and this rounds to even.
unfoldable pub pct : ℤ → ℕ → Option ℤ
pct numerator denominator =
    if denominator == 0 then none else some (round_fraction (times 1000 numerator) denominator)

-- `_filled`
unfoldable pub filled : Text → Value → Bool
filled x missing = false
filled x (listed n) = ltb 0 n
filled x (text s) = not (str_eq (x.strip s) "")

-- `_is_closed`, `_is_won`
abbrev pub is_closed : Text → Card → Bool
is_closed x d = str_eq (x.upper d.closed) "Y"

abbrev pub is_won : Text → Card → Bool
is_won x d = str_eq (x.upper d.stage_semantic_id) "S"

-- What a criterion that was scored has.
pub record Score : Type 0 where
  pub pct : Option ℤ
  pub numerator : ℤ
  pub denominator : ℕ
  pub failed_items : List ℕ
  pub failed_truncated : Bool

-- `HygieneCriterion`: the score, or nothing with the status `not_available`. The flag is the note on
-- a partial sample.
pub record Criterion : Type 0 where
  pub key : String
  pub score : Option Score
  pub is_partial : Bool

-- `_unavailable`
abbrev pub unavailable : String → Criterion
unavailable key = record { key = key; score = none; is_partial = false }

-- `_scored`
unfoldable pub scored : String → ℤ → ℕ → List ℕ → Bool → Criterion
unfolding pct
scored key numerator denominator failed truncated = record {
  key = key;
  score = some (record {
    pct = pct numerator denominator;
    numerator = numerator;
    denominator = denominator;
    failed_items = failed;
    failed_truncated = truncated;
  });
  is_partial = false;
}

-- `_cap`, and the score of a criterion with what it keeps.
unfoldable pub scored_capped : HygieneSettings → String → ℕ → ℕ → List ℕ → Criterion
unfolding scored
scored_capped s key numerator denominator failed =
    scored key (pos numerator) denominator (take s.failed_max_items failed)
      (ltb s.failed_max_items (length failed))

-- The loop of each criterion over its base: how many cards pass, and the ids of those that do not.
unfoldable pub tally : (Card → Bool) → List Card → ℕ × List ℕ
tally passes [] = (0, [])
tally passes (d ∷ ds) =
    let (n, failed) = tally passes ds in if passes d then (n + 1, failed) else (n, d.id ∷ failed)

-- A criterion over a base, which is not available without one.
unfoldable pub over : HygieneSettings → String → (Card → Bool) → List Card → Criterion
unfolding tally scored_capped
over s key passes [] = unavailable key
over s key passes (d ∷ ds) =
    let (n, failed) = tally passes (d ∷ ds) in scored_capped s key n (length (d ∷ ds)) failed

-- `last >= cutoff`, where the cutoff is so many days before the time `as_of`.
abbrev pub is_recent : HygieneSettings → ℕ → Option ℕ → Bool
is_recent s as_of none = false
is_recent s as_of (some last) = leb as_of (last + s.stale_days * 86400)

abbrev pub is_maintained : HygieneSettings → Text → ℕ → Card → Bool
is_maintained s x as_of d = is_closed x d || is_recent s as_of d.last_activity

-- `_statuses`
unfoldable pub statuses : HygieneSettings → Text → ℕ → ℕ → Option (List Card) → Criterion
unfolding over
statuses s x now end none = unavailable "statuses"
statuses s x now end (some deals) = over s "statuses" (is_maintained s x (min end now)) deals

-- `sum(1 for f in fields if not _filled(d.get(f)))`
unfoldable pub missing_fields : Text → Card → List String → ℕ
missing_fields x d [] = 0
missing_fields x d (f ∷ fs) =
    let rest = missing_fields x d fs in if filled x (d.fields f) then rest else rest + 1

abbrev pub owes_anketa : Text → Card → Bool
owes_anketa x d = is_won x d || anketa_due d.stage_id

-- The part of `_anketa` behind the test of the fields.
unfoldable pub anketa_of : HygieneSettings → Text → Option (List Card) → Criterion
unfolding over missing_fields anketa_due
anketa_of s x none = unavailable "anketa"
anketa_of s x (some deals) =
    over s "anketa" (λ d. missing_fields x d s.anketa_fields == 0) (select (owes_anketa x) deals)

-- `_anketa`
unfoldable pub anketa : HygieneSettings → Text → Option (List Card) → Criterion
unfolding anketa_of
anketa s x deals = if length s.anketa_fields == 0 then unavailable "anketa" else anketa_of s x deals

abbrev pub owes_task : Text → Card → Bool
owes_task x d = not (is_closed x d) && requires_task d.stage_id

-- `_tasks_set`
unfoldable pub tasks_set : HygieneSettings → Text → Option (List Card) → Option (List ℕ) → Criterion
unfolding over requires_task
tasks_set s x none ids = unavailable "tasks_set"
tasks_set s x (some deals) none = unavailable "tasks_set"
tasks_set s x (some deals) (some ids) =
    over s "tasks_set" (λ d. mem d.id ids) (select (owes_task x) deals)
