-- ===== src/Meetings/Assemble.antt =====
-- AtamuraOKK/scoring/meetings/result.py, `assemble_score`: a score from the model's answer.
use Prim.Native.Nat.{min}
use atamura_okk.Base.{
  ℕ, ◌+◌, ◌*◌, String, Bool, true, false, ◌&&◌, Option, none, some, List, [], ◌∷◌, ◌++◌, length,
  leb, ltb, ◌==◌, not, if◌then◌else◌,
}
use atamura_okk.Scoring.Percent.{round_half_even}
use atamura_okk.Meetings.Checklist.{
  Criterion, Rubric, auto_scores, Points, non_negative, negative, LlmScore, CriterionScore,
  CallForScoring, ScoreResult, sum_score,
}

-- `round(total / max_total_score * 100, 1)`, in tenths. Only a maximum that 16 divides has ties, where
-- the source's double may lie on either side; the checklists have 50 and 100.
abbrev pub tenths : ℕ → ℕ → ℕ
tenths total max_total = round_half_even (1000 * total) max_total

-- What the loop over the criteria carries.
pub record Marked : Type 0 where
  pub criteria : List CriterionScore
  pub missing : List ℕ
  pub clamped : ℕ

abbrev pub to_score : Criterion → ℕ → Bool → CriterionScore
to_score crit points auto = record {
  id = crit.id;
  block = crit.block;
  name = crit.name;
  score = points;
  max_score = crit.max_score;
  auto = auto;
}

abbrev add : CriterionScore → Marked → Marked
add cs m = record m { criteria = m.criteria ++ (cs ∷ []) }

-- The end of the loop's body: points out of range are clamped.
unfoldable pub mark_points : Criterion → Points → Marked → Marked
mark_points crit (negative n) m = record (add (to_score crit 0 false) m) { clamped = m.clamped + 1 }
mark_points crit (non_negative n) m =
    if ltb crit.max_score n
    then record (add (to_score crit (min n crit.max_score) false) m) { clamped = m.clamped + 1 }
    else add (to_score crit n false) m

-- The loop's body.
unfoldable pub mark_one : (ℕ → Option ℕ) → (ℕ → Option Points) → Criterion → Marked → Marked
unfolding mark_points
mark_one auto scores crit m = elim (auto crit.id) [
  | some points ↦ add (to_score crit points true) m
  | none ↦ elim (scores crit.id) [
    | none ↦ record (add (to_score crit 0 false) m) { missing = m.missing ++ (crit.id ∷ []) }
    | some raw ↦ mark_points crit raw m
  ]
]

unfoldable pub mark_all : (ℕ → Option ℕ) → (ℕ → Option Points) → List Criterion → Marked → Marked
unfolding mark_one
mark_all auto scores [] m = m
mark_all auto scores (crit ∷ crits) m = mark_all auto scores crits (mark_one auto scores crit m)

-- `round(max(0.0, min(100.0, …)), 1)` of a number of hundredths.
abbrev pub clamp_adherence : Option Points → Option ℕ
clamp_adherence none = none
clamp_adherence (some (negative n)) = some 0
clamp_adherence (some (non_negative n)) = some (round_half_even (min 10000 n) 10)

-- The bonus for a meeting that the client agreed to, in points.
abbrev pub bonus : ℕ → Bool → ℕ
bonus kev_bonus_points agreed =
    if not (kev_bonus_points == 0) && agreed then kev_bonus_points else 0

-- The final percentage: with the bonus, at most 100.
abbrev pub final_pct : ℕ → ℕ → ℕ
final_pct base_pct kev_bonus = min 1000 (base_pct + 10 * kev_bonus)

-- The end of `assemble_score`, behind the loop.
abbrev pub finish :
    LlmScore → Rubric → CallForScoring → String → String → String → ℕ → ℕ → Marked → ScoreResult
finish llm rubric call language provider model pass_threshold kev_bonus_points m =
    let total = sum_score m.criteria in
    let base = tenths total rubric.max_total_score in
    let kev = bonus kev_bonus_points llm.client_agreed_meeting in
    record {
      rubric_version = rubric.id;
      total_score = total;
      max_total = rubric.max_total_score;
      score_pct = final_pct base kev;
      passed = leb (10 * pass_threshold) (final_pct base kev);
      criteria = m.criteria;
      call_type = llm.call_type;
      client_agreed_meeting = llm.client_agreed_meeting;
      manager_tone = llm.manager_tone;
      red_flags = llm.red_flags_found;
      summary = llm.summary;
      language = language;
      provider = provider;
      model = model;
      needs_human_review = leb 3 (length m.missing);
      script_adherence = clamp_adherence llm.script_adherence;
      script_deviations = llm.script_deviations;
      base_score_pct = base;
      client_emotion = llm.client_emotion;
      visit_index = call.visit_index;
      kev_bonus = kev;
      missing_criteria = m.missing;
      clamped_criteria = m.clamped;
      n_chunks = 0;
    }

-- `assemble_score`; `none` is the division by a maximum of 0.
unfoldable pub assemble_score :
    LlmScore → Rubric → CallForScoring → String → String → String → ℕ → ℕ → Option ScoreResult
unfolding mark_all sum_score
assemble_score llm rubric call language provider model pass_threshold kev_bonus_points =
    if rubric.max_total_score == 0
    then none
    else some (
        finish llm rubric call language provider model pass_threshold kev_bonus_points (
          mark_all (auto_scores call.duration_sec rubric.criteria) llm.scores rubric.criteria
            (record { criteria = []; missing = []; clamped = 0 })))
