-- ===== src/Meetings/Checklist.antt =====
-- AtamuraOKK/scoring/meetings/rubric.py, base.py and schema.py: the checklist of a meeting, what the
-- model answers, and a score. Percentages are in tenths; points can be negative before they are clamped.
use atamura_okk.Base.{
  ℕ, ◌+◌, String, Bool, true, false, Option, none, some, List, [], ◌∷◌, leb, ◌==◌, str_eq, mem, map,
  not, ◌&&◌, if◌then◌else◌,
}

-- `Criterion`
pub record Criterion : Type 0 where
  pub id : ℕ
  pub block : String
  pub name : String
  pub max_score : ℕ
  pub check : String
  pub auto_check : Option String

-- `Rubric`, the fields that scoring reads.
pub record Rubric : Type 0 where
  pub id : String
  pub max_total_score : ℕ
  pub criteria : List Criterion
  pub min_merge_blocks : List String

-- `auto_scores`: the entry that one criterion makes.
unfoldable pub auto_score : ℕ → Criterion → Option ℕ
auto_score duration_sec crit = elim crit.auto_check [
  | none ↦ none
  | some rule ↦
      if str_eq rule "duration <= 300"
      then some (if leb duration_sec 300 then crit.max_score else 0)
      else if str_eq rule "default_full"
      then some crit.max_score
      else none
]

-- The dictionary that `auto_scores` makes, read at an id: the last entry of an id stays.
unfoldable pub auto_scores : ℕ → List Criterion → ℕ → Option ℕ
unfolding auto_score
auto_scores duration_sec [] i = none
auto_scores duration_sec (crit ∷ crits) i = elim (auto_scores duration_sec crits i) [
  | some later ↦ some later
  | none ↦ if crit.id == i then auto_score duration_sec crit else none
]

unfoldable pub sum_max : List Criterion → ℕ
sum_max [] = 0
sum_max (crit ∷ crits) = crit.max_score + sum_max crits

abbrev pub has_duplicates : List ℕ → Bool
has_duplicates [] = false
has_duplicates (i ∷ is) = if mem i is then true else has_duplicates is

-- `_validate` raises nothing.
unfoldable pub is_valid : Rubric → Bool
unfolding sum_max
is_valid r =
    (sum_max r.criteria == r.max_total_score) && not (has_duplicates (map (λ c. c.id) r.criteria))

pub data Points : Type 0 where
  non_negative negative : ℕ → Points

-- `LLMScore`. `scores` is its dictionary, read at the text of an id.
pub record LlmScore : Type 0 where
  pub scores : ℕ → Option Points
  pub call_type : String
  pub client_agreed_meeting : Bool
  pub manager_tone : String
  pub client_emotion : String
  pub red_flags_found : List String
  pub summary : String
  pub script_adherence : Option Points
  pub script_deviations : List String

-- `CriterionScore`
pub record CriterionScore : Type 0 where
  pub id : ℕ
  pub block : String
  pub name : String
  pub score : ℕ
  pub max_score : ℕ
  pub auto : Bool

-- `CallForScoring`
pub record CallForScoring : Type 0 where
  pub text : String
  pub duration_sec : ℕ
  pub language : String
  pub visit_index : ℕ

-- `ScoreResult`, with the entries of `meta` as fields.
pub record ScoreResult : Type 0 where
  pub rubric_version : String
  pub total_score : ℕ
  pub max_total : ℕ
  pub score_pct : ℕ
  pub passed : Bool
  pub criteria : List CriterionScore
  pub call_type : String
  pub client_agreed_meeting : Bool
  pub manager_tone : String
  pub red_flags : List String
  pub summary : String
  pub language : String
  pub provider : String
  pub model : String
  pub needs_human_review : Bool
  pub script_adherence : Option ℕ
  pub script_deviations : List String
  pub base_score_pct : ℕ
  pub client_emotion : String
  pub visit_index : ℕ
  pub kev_bonus : ℕ
  pub missing_criteria : List ℕ
  pub clamped_criteria : ℕ
  pub n_chunks : ℕ

unfoldable pub sum_score : List CriterionScore → ℕ
sum_score [] = 0
sum_score (cs ∷ rest) = cs.score + sum_score rest
