-- ===== src/Meetings/Merge.antt =====
-- AtamuraOKK/scoring/meetings/meeting.py: the score of a long meeting from those of its chunks, and
-- cleanup.py. The scorer of one text is a parameter; what the regular expressions of the cleanup
-- do to one line is, too.
use Prim.Native.String.{◌++◌, count}
use mathlib.Core.List.{◌++◌ as followed_by}
use atamura_okk.Base.{
  ℕ, ◌+◌, ◌*◌, String, Bool, false, ◌||◌, Option, none, some, List, [], ◌∷◌, length, map, leb, ltb,
  ◌==◌, str_eq, not, select, if◌then◌else◌,
}
use atamura_okk.Scoring.Percent.{round_half_even}
use atamura_okk.Meetings.Chunking.{Text, join_lines, chunk_transcript}
use atamura_okk.Meetings.Checklist.{
  Criterion, Rubric, CriterionScore, CallForScoring, ScoreResult, sum_score,
}
use atamura_okk.Meetings.Assemble.{tenths, bonus, final_pct}

abbrev pub contains : String → List String → Bool
contains s [] = false
contains s (t ∷ ts) = str_eq t s || contains s ts

-- `_dedup`, with the items that were seen.
unfoldable pub dedup_from : List String → List String → List String
dedup_from seen [] = []
dedup_from seen (s ∷ rest) =
    let kept = s ∷ dedup_from (s ∷ seen) rest in
    let skipped = dedup_from seen rest in if contains s seen then skipped else kept

unfoldable pub dedup : List String → List String
unfolding dedup_from
dedup items = dedup_from [] items

-- `_TONE_SEVERITY` and `_EMOTION_SEVERITY`
abbrev pub severity : List String → String → Option ℕ
severity labels s = find 0 labels
  where
    find : ℕ → List String → Option ℕ
    find n [] = none
    find n (l ∷ ls) = if str_eq l s then some n else find (n + 1) ls

abbrev pub tones : List String
tones = "вежливый" ∷ "нейтральный" ∷ "неуверенный" ∷ "грубый" ∷ []

abbrev pub emotions : List String
emotions = "спокоен" ∷ "спешит" ∷ "эмоционален" ∷ "раздражён" ∷ []

-- `max(known, key=…)`: the first label of the highest rank, among those that the table knows.
unfoldable pub peak_from : List String → Option (String × ℕ) → List String → Option (String × ℕ)
peak_from table best [] = best
peak_from table best (s ∷ ss) = peak_from table (better (severity table s) best) ss
  where
    better : Option ℕ → Option (String × ℕ) → Option (String × ℕ)
    better none best = best
    better (some n) none = some (s, n)
    better (some n) (some (t, m)) = if ltb m n then some (s, n) else some (t, m)

abbrev label_of : String → Option (String × ℕ) → String
label_of default none = default
label_of default (some (s, _)) = s

-- `_worst_tone`, `_peak_emotion`
unfoldable pub worst_tone : List String → String
unfolding peak_from
worst_tone labels = label_of "нейтральный" (peak_from tones none labels)

unfoldable pub peak_emotion : List String → String
unfolding peak_from
peak_emotion labels = label_of "спокоен" (peak_from emotions none labels)

-- The scores that the chunks give a criterion, in the order of the chunks.
unfoldable pub scores_of : ℕ → List CriterionScore → List CriterionScore
scores_of i [] = []
scores_of i (cs ∷ rest) = let more = scores_of i rest in if cs.id == i then cs ∷ more else more

unfoldable pub all_scores : List ScoreResult → List CriterionScore
all_scores [] = []
all_scores (r ∷ rs) = followed_by r.criteria (all_scores rs)

-- `pick(scores, key=…)`: the first of the lowest, or of the highest.
unfoldable pub pick_from : Bool → CriterionScore → List CriterionScore → CriterionScore
pick_from lowest best [] = best
pick_from lowest best (cs ∷ rest) =
    pick_from lowest
      (if (if lowest then ltb cs.score best.score else ltb best.score cs.score) then cs else best)
      rest

-- The choice for one criterion, if a chunk scores it.
unfoldable pub choose : Rubric → List CriterionScore → Option CriterionScore
unfolding pick_from
choose rubric [] = none
choose rubric (cs ∷ rest) = some (pick_from (contains cs.block rubric.min_merge_blocks) cs rest)

-- `[chosen[c.id] for c in self.rubric.criteria if c.id in chosen]`
unfoldable pub chosen : Rubric → List CriterionScore → List Criterion → List CriterionScore
unfolding scores_of choose
chosen rubric scores [] = []
chosen rubric scores (crit ∷ crits) = elim (choose rubric (scores_of crit.id scores)) [
  | none ↦ chosen rubric scores crits
  | some cs ↦ cs ∷ chosen rubric scores crits
]

abbrev pub any_result : (ScoreResult → Bool) → List ScoreResult → Bool
any_result p [] = false
any_result p (r ∷ rs) = p r || any_result p rs

abbrev pub flat_map : (ScoreResult → List String) → List ScoreResult → List String
flat_map f [] = []
flat_map f (r ∷ rs) = followed_by (f r) (flat_map f rs)

abbrev pub present : List ScoreResult → List ℕ
present [] = []
present (r ∷ rs) = elim r.script_adherence [ none ↦ present rs | some a ↦ a ∷ present rs ]

unfoldable pub sum_of : List ℕ → ℕ
sum_of [] = 0
sum_of (n ∷ ns) = n + sum_of ns

-- `round(sum(adherence) / len(adherence), 1) if adherence else None`, of tenths.
abbrev pub mean_adherence : List ℕ → Option ℕ
mean_adherence [] = none
mean_adherence (n ∷ ns) = some (round_half_even (sum_of (n ∷ ns)) (length (n ∷ ns)))

unfoldable pub join_spaced : List String → String
join_spaced [] = ""
join_spaced (s ∷ []) = s
join_spaced (s ∷ t ∷ ts) = s ++ (" " ++ join_spaced (t ∷ ts))

-- The settings of `MeetingScorer`; `strip` is `str.strip`.
pub record Scorer : Type 0 where
  pub rubric : Rubric
  pub chunk_chars : ℕ
  pub pass_threshold : ℕ
  pub overlap_lines : ℕ
  pub kev_bonus_points : ℕ
  pub strip : String → String

-- `_merge` of the results of one chunk or more. A rubric whose maximum is 0 never gets here, since
-- the scorer of one text refuses it.
unfoldable pub merge : Scorer → ScoreResult → List ScoreResult → CallForScoring → ScoreResult
unfolding chosen all_scores sum_score dedup worst_tone peak_emotion join_spaced sum_of
merge s first rest call =
    let results = first ∷ rest in
    let criteria = chosen s.rubric (all_scores results) s.rubric.criteria in
    let base = tenths (sum_score criteria) s.rubric.max_total_score in
    let agreed = any_result (λ r. r.client_agreed_meeting) results in
    let kev = bonus s.kev_bonus_points agreed in
    record {
      rubric_version = s.rubric.id;
      total_score = sum_score criteria;
      max_total = s.rubric.max_total_score;
      score_pct = final_pct base kev;
      passed = leb (10 * s.pass_threshold) (final_pct base kev);
      criteria = criteria;
      call_type = first.call_type;
      client_agreed_meeting = agreed;
      manager_tone = worst_tone (map (λ r. r.manager_tone) results);
      red_flags = dedup (flat_map (λ r. r.red_flags) results);
      summary =
          s.strip (join_spaced (select (λ t. not (str_eq t "")) (map (λ r. r.summary) results)));
      language = call.language;
      provider = first.provider;
      model = first.model;
      needs_human_review = any_result (λ r. r.needs_human_review) results;
      script_adherence = mean_adherence (present results);
      script_deviations = dedup (flat_map (λ r. r.script_deviations) results);
      base_score_pct = base;
      client_emotion = peak_emotion (map (λ r. r.client_emotion) results);
      visit_index = call.visit_index;
      kev_bonus = kev;
      missing_criteria = [];
      clamped_criteria = 0;
      n_chunks = length results;
    }

-- The regular expressions of cleanup.py on one line: the blacklist and the whitespace, and then
-- the speaker tag.
pub record Cleanup : Type 0 where
  pub scrub : String → String
  pub untag : String → String

abbrev is_repeated : Option String → String → Bool
is_repeated none line = false
is_repeated (some prev) line = str_eq line prev

-- The loop of `clean_transcript` over the lines, with the line that was kept last.
unfoldable pub clean_lines : Cleanup → Option String → List String → List String
clean_lines u prev [] = []
clean_lines u prev (raw ∷ rest) =
    let line = u.scrub raw in
    let skipped = clean_lines u prev rest in
    let kept = line ∷ clean_lines u (some line) rest in
    if str_eq (u.untag line) "" then skipped else if is_repeated prev line then skipped else kept

-- `clean_transcript` of a text that `split("\n")` has split.
unfoldable pub clean_transcript : Cleanup → List String → String
unfolding clean_lines join_lines
clean_transcript u lines = join_lines (clean_lines u none lines)

-- How `score` ends: without a result if the chunking refuses its cap or gives no chunk.
pub data Scored : Type 0 where
  bad_cap no_chunks : Scored
  result : ScoreResult → Scored

abbrev sub_call : CallForScoring → String → CallForScoring
sub_call call chunk = record call { text = chunk }

abbrev merge_all : Scorer → CallForScoring → List ScoreResult → Scored
merge_all s call [] = no_chunks
merge_all s call (r ∷ rs) = result (merge s r rs call)

-- `score`; `split` is `str.split("\n")` and `base` the scorer of one text. The chunks are scored
-- at the same time; their results stand in the order of the chunks.
unfoldable pub score :
    Text
    → Cleanup
    → (String → List String)
    → (CallForScoring → ScoreResult)
    → Scorer
    → CallForScoring
    → Scored
unfolding merge clean_transcript chunk_transcript
score x u split base s call =
    let cleaned = clean_transcript u (split call.text) in
    if leb (count cleaned) s.chunk_chars
    then result (base call)
    else elim (chunk_transcript x s.chunk_chars s.overlap_lines cleaned) [
      | none ↦ bad_cap
      | some chunks ↦ merge_all s call (map (λ c. base (sub_call call c)) chunks)
    ]
