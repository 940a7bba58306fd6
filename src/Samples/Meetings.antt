-- ===== src/Samples/Meetings.antt =====
-- One recording through the stages of the meetings, and the score of a meeting in two chunks.
use mathlib.Core.List.{Memᴰ}
use Prim.Native.Nat.{min}
use atamura_okk.Base.{
  ℕ, ◌+◌, ◌*◌, ◌≤◌, ◌≡◌, ◌≢◌, refl, true, false, Option, none, some, List, [], ◌∷◌, str_eq, map,
  select, leb, All, arith,
}
use atamura_okk.Meetings.Recordings.{MeetingFile, Recording}
use atamura_okk.Meetings.Passes.{Config, World, content, text, judgement, download_pending}
use atamura_okk.Meetings.Drain.{ingest_recordings, active, drained, out_of_passes, drain_pipeline}
use atamura_okk.Meetings.Effects.{IsFine, left}
use atamura_okk.Meetings.Invariant.{Operation, Reached, Reached-IsFine}
use atamura_okk.Meetings.Ends.{drain_pipeline-ends}
use atamura_okk.Meetings.Checklist.{
  Criterion, Rubric, Points, non_negative, LlmScore, CriterionScore, CallForScoring, ScoreResult,
  auto_scores, sum_score, is_valid,
}
use atamura_okk.Meetings.Assemble.{tenths, bonus, assemble_score}
use atamura_okk.Meetings.Merge.{Scorer, all_scores, merge}
use atamura_okk.Meetings.Marks.{award, criterion_ids, IsInRange, assemble_score_lem}
use atamura_okk.Meetings.Worst.{Settles, is_scored, merge-Settles}

abbrev config : Config
config = record { max_attempts = 3; min_duration_sec = 300 }

abbrev disk_file : MeetingFile
disk_file = record {
  file_id = 1;
  name = "meeting.mp3";
  ext = "mp3";
  size = 1000;
  folder_path = "ОП";
  download_url = some "https://disk/1";
  created_at = some 50;
  created_by = some 7;
  meeting_at = none;
}

abbrev world : World
world = record {
  fetch = λ r. content "meetings/1.mp3" 600;
  exists = λ path. true;
  hear = λ r. text "Алло" "ru";
  is_blank = λ s. str_eq s "";
  judge = λ r. judgement "{}" 800 true;
  payload = λ r. true;
  postgres = true;
  now = 100;
}

abbrev ingested_rows : List Recording
ingested_rows = (ingest_recordings 60 (disk_file ∷ []) ([], 0, 0)).0

abbrev downloaded_rows : List Recording
downloaded_rows = (download_pending config world 10 ingested_rows).0

Reached-ingested : Reached config ingested_rows
Reached-ingested = Reached.operated Reached.created (Operation.ingested 60 (disk_file ∷ []))

Reached-downloaded : Reached config downloaded_rows
Reached-downloaded = Reached.operated Reached-ingested (Operation.downloaded world 10)

Reached-IsFine_example : IsFine config downloaded_rows
Reached-IsFine_example = Reached-IsFine config (omega arith) Reached-downloaded

ingested-IsFine : IsFine config ingested_rows
ingested-IsFine = Reached-IsFine config (omega arith) Reached-ingested

drain_pipeline-ends_example :
    let d = drain_pipeline config (λ pass. world) 10 40 ingested_rows in
    (d.passes ≤ 2 * left config ingested_rows + 2)
    × (2 * left config ingested_rows + 2 ≤ 40 → d.stop ≢ out_of_passes)
    × (d.stop ≡ drained → active d.rows ≡ 0)
drain_pipeline-ends_example =
    drain_pipeline-ends config (λ pass. world) (λ pass. refl) 10 40 ingested_rows ingested-IsFine

abbrev greeting : Criterion
greeting = record {
  id = 1;
  block = "Контакт";
  name = "Приветствие";
  max_score = 5;
  check = "";
  auto_check = none;
}

abbrev brevity : Criterion
brevity = record {
  id = 2;
  block = "Регламент";
  name = "Длительность";
  max_score = 10;
  check = "";
  auto_check = some "duration <= 300";
}

abbrev checklist : Rubric
checklist = record {
  id = "meeting-v1";
  max_total_score = 15;
  criteria = greeting ∷ brevity ∷ [];
  min_merge_blocks = "Контакт" ∷ [];
}

abbrev points : ℕ → Option Points
points i = some (non_negative 7)

abbrev answer : LlmScore
answer = record {
  scores = points;
  call_type = "встреча";
  client_agreed_meeting = true;
  manager_tone = "вежливый";
  client_emotion = "спокоен";
  red_flags_found = [];
  summary = "";
  script_adherence = none;
  script_deviations = [];
}

abbrev short_call : CallForScoring
short_call = record { text = "Алло"; duration_sec = 240; language = "ru"; visit_index = 1 }

assemble_score_lem_example :
    (r : ScoreResult) × (assemble_score answer checklist short_call "ru" "anthropic" "model" 70 5
      ≡ some r)
    × (r.criteria ≡ map (award (auto_scores 240 checklist.criteria) points) checklist.criteria)
    × All IsInRange r.criteria
    × (r.total_score ≡ sum_score r.criteria)
    × (r.total_score ≤ 15)
    × (r.score_pct ≡ min 1000 (tenths r.total_score 15 + 10 * bonus 5 true))
    × (r.passed ≡ leb (10 * 70) r.score_pct)
unfolding is_valid
assemble_score_lem_example =
    assemble_score_lem answer checklist short_call "ru" "anthropic" "model" 70 5 refl (omega arith)

abbrev greeted : ℕ → CriterionScore
greeted n = record {
  id = 1;
  block = "Контакт";
  name = "Приветствие";
  score = n;
  max_score = 5;
  auto = false;
}

abbrev chunk_result : ℕ → ScoreResult
chunk_result n = record {
  rubric_version = "meeting-v1";
  total_score = n;
  max_total = 15;
  score_pct = 0;
  passed = false;
  criteria = greeted n ∷ [];
  call_type = "встреча";
  client_agreed_meeting = false;
  manager_tone = "вежливый";
  red_flags = [];
  summary = "";
  language = "ru";
  provider = "anthropic";
  model = "model";
  needs_human_review = false;
  script_adherence = none;
  script_deviations = [];
  base_score_pct = 0;
  client_emotion = "спокоен";
  visit_index = 1;
  kev_bonus = 0;
  missing_criteria = [];
  clamped_criteria = 0;
  n_chunks = 0;
}

abbrev scorer : Scorer
scorer = record {
  rubric = checklist;
  chunk_chars = 40000;
  pass_threshold = 70;
  overlap_lines = 2;
  kev_bonus_points = 5;
  strip = λ s. s;
}

merge-Settles_example :
    let r = merge scorer (chunk_result 5) (chunk_result 3 ∷ []) short_call in
    let given = all_scores (chunk_result 5 ∷ chunk_result 3 ∷ []) in
    All
      (λ cs. (crit : Criterion) × Memᴰ crit checklist.criteria × Settles checklist given crit cs)
      r.criteria
    × (map (λ cs. cs.id) r.criteria
        ≡ criterion_ids (select (is_scored checklist given) checklist.criteria))
    × (r.total_score ≤ r.max_total)
unfolding all_scores is_valid
merge-Settles_example =
    merge-Settles scorer (chunk_result 5) (chunk_result 3 ∷ []) short_call refl (
      ((λ _. (refl, omega arith)), ((λ other. absurd (omega arith)), tt)),
      (((λ _. (refl, omega arith)), ((λ other. absurd (omega arith)), tt)), tt),
    )
