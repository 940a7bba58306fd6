-- ===== src/Audit/Telephony.antt =====
-- AtamuraOKK/audit/telephony.py: was a client who was never reached reached after all. The rows of
-- the telephony statistics are a parameter; a look-up may fail. Times are in seconds.
use mathlib.Core.List.{◌++◌}
use atamura_okk.Base.{
  ℕ, ◌+◌, ◌-◌, ◌*◌, String, Option, none, some, List, [], ◌∷◌, ltb, str_eq, length, select, take,
  if◌then◌else◌,
}
use atamura_okk.Audit.Deals.{Deal, AuditSettings}

abbrev pub day : ℕ
day = 86400

-- The end of the window: a day behind the close, if that lies behind the creation.
abbrev pub window_end : ℕ → Option ℕ → ℕ
window_end created none = created + 30 * day
window_end created (some closed) = if ltb created closed then closed + day else created + 30 * day

-- `audit_window`
unfoldable pub audit_window : Deal → Option (ℕ × ℕ)
audit_window deal = elim deal.date_create [
  | none ↦ none
  | some created ↦ some (created - day, window_end created deal.closedate)
]

-- A row of `voximplant.statistic.get`.
pub record Attempt : Type 0 where
  pub code : String
  pub call_id : String

-- The rows for a number in a window; `_MAX_ROWS` of them are read.
abbrev pub Statistics : Type 0
Statistics = String → ℕ × ℕ → Option (List Attempt)

unfoldable pub attempts_for_phone : Statistics → String → ℕ × ℕ → Option (List Attempt)
attempts_for_phone stats phone window = elim (stats phone window) [
  | none ↦ none
  | some rows ↦ some (take 500 rows)
]

-- The loop over the numbers; a failure ends it.
unfoldable pub all_attempts : Statistics → ℕ × ℕ → List String → Option (List Attempt)
unfolding attempts_for_phone
all_attempts stats window [] = some []
all_attempts stats window (p ∷ ps) = elim (attempts_for_phone stats p window) [
  | none ↦ none
  | some rows ↦ elim (all_attempts stats window ps) [
    | none ↦ none
    | some rest ↦ some (rows ++ rest)
  ]
]

-- `TelephonyCheck`, with the counts of its details.
pub record TelephonyCheck : Type 0 where
  pub verdict : String
  pub attempts : ℕ
  pub answered : ℕ

abbrev pub bare : String → TelephonyCheck
bare verdict = record { verdict = verdict; attempts = 0; answered = 0 }

abbrev pub answered_of : AuditSettings → List Attempt → List Attempt
answered_of s rows = select (λ r. str_eq r.code s.ingest_success_code) rows

-- The end of `check_one`, by the calls that were answered.
unfoldable pub conclude : List Attempt → List Attempt → TelephonyCheck
conclude rows [] = record { verdict = "supported"; attempts = length rows; answered = 0 }
conclude rows (a ∷ rest) = record {
  verdict = "contradicted";
  attempts = length rows;
  answered = length (a ∷ rest);
}

unfoldable pub of_attempts : AuditSettings → Option (List Attempt) → TelephonyCheck
unfolding conclude
of_attempts s none = bare "error"
of_attempts s (some rows) = conclude rows (answered_of s rows)

unfoldable pub in_window :
    AuditSettings → Statistics → List String → Option (ℕ × ℕ) → TelephonyCheck
unfolding all_attempts of_attempts
in_window s stats phones none = bare "not_determinable"
in_window s stats phones (some window) = of_attempts s (all_attempts stats window phones)

-- `check_one`
unfoldable pub check_one : AuditSettings → Statistics → Deal → List String → TelephonyCheck
unfolding audit_window in_window
check_one s stats deal [] = bare "not_determinable"
check_one s stats deal (p ∷ ps) = in_window s stats (p ∷ ps) (audit_window deal)
