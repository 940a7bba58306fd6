-- ===== src/Samples/Rows.antt =====
-- The properties of single rows and of the stages' transactions, on concrete rows.
use Prim.Native.Char.{Char}
use Prim.Native.String.{count}
use atamura_okk.Base.{
  ◌≡◌, ◌≤◌, refl, String, Bool, false, true, none, some, List, [], ◌∷◌, map, All, arith,
}
use atamura_okk.Store.{
  CallStatus, Call, Transcript, Score, Manager, Db, get, claimed, upsert_score, get_score,
}
use atamura_okk.Settings.{defaults}
use atamura_okk.Ingestion.Scope.{Qualification, no_stats}
use atamura_okk.Ingestion.Upsert.{upsert_rows}
use atamura_okk.Ingestion.Once.{
  SameWork, upsert_rows-keeps, upsert_rows-twice, ScopeOutcome, apply_scope_lem,
}
use atamura_okk.Scoring.Rubric.{Zone}
use atamura_okk.Scoring.CallScore.{ManagerSide}
use atamura_okk.Stages.Alert.{should_notify_cash, bitrix_user_id, maybe_notify}
use atamura_okk.Stages.Labels.{swap_segment, reconcile}
use atamura_okk.Stages.Once.{alert-once, reconcile-once}
use atamura_okk.Stages.Score.{assessment, scoring_error}
use atamura_okk.Stages.Batch
use atamura_okk.Stages.Tasks.{finish_score}
use atamura_okk.Pipeline.Redelivery.{finish_score-once}
use atamura_okk.Drivers.Batches.{errored, drain_results}
use atamura_okk.Drivers.Drained.{drain_results-frees}
use atamura_okk.Meetings.Chunking.{
  Text, chunk_transcript, join_lines, split_all, lines_from, is_blank,
}
use atamura_okk.Meetings.Lossless.{chunk_transcript-lossless}
use atamura_okk.Meetings.Bound.{chunk_transcript-bound}
use atamura_okk.Samples.Data.{fields, scoped_row, scoring_row, in_scoring, assessed, env}

abbrev any_char : Char → Bool
any_char c = true

abbrev in_transcribing : Db
in_transcribing = record in_scoring {
  calls = record scoring_row { status = CallStatus.transcribing } ∷ [];
}

finish_score-once_example :
    let db' = (finish_score env 1 (assessment assessed) in_scoring).0 in
    (finish_score env 1 (scoring_error "late") db' ≡ (db', none))
    × (Batch.persist_result env 1 (scoring_error "late") db' ≡ (db', false, none))
finish_score-once_example =
    finish_score-once env 1 (assessment assessed) (scoring_error "late") in_scoring

drain_results-frees_example :
    claimed CallStatus.scoring 1
      (drain_results env
        (1 ∷ 2 ∷ [])
        (record { call_id = some 1; result = errored "overloaded" } ∷ [])
        in_scoring).db
    ≡ none
drain_results-frees_example =
    drain_results-frees 1 env (1 ∷ 2 ∷ [])
      (record { call_id = some 1; result = errored "overloaded" } ∷ []) in_scoring refl

abbrev score_row : Score
score_row = record {
  call_id = 1;
  rubric_version = "tm-call-v4";
  total_score = 5000;
  criteria = record {
    per_criterion = [];
    blocks = [];
    raw_points = 1;
    max_points = 2;
    percent = 5000;
    zone = Zone.borderline;
    result = assessed;
    client_category = none;
  };
  sentiment_customer = "";
  sentiment_agent = "";
  summary = "";
  flags = [];
  model = "anthropic/model";
  manager_spoken_name = none;
  notified_at = none;
}

abbrev managers : List Manager
managers = record { id = 7; bitrix_user_id = 77 } ∷ []

alert-once_example :
    let scores =
      upsert_score score_row
        (maybe_notify 1100 60 true assessed "tm-call-v4" scoring_row managers (score_row ∷ [])).0 in
    maybe_notify 1200 60 true assessed "tm-call-v4" scoring_row managers scores ≡ (scores, none)
unfolding maybe_notify should_notify_cash bitrix_user_id get_score
alert-once_example =
    alert-once 1 "tm-call-v4" 1100 1200 60 60 true true assessed assessed scoring_row scoring_row
      managers managers (score_row ∷ []) score_row refl refl refl

abbrev transcript : Transcript
transcript = record {
  call_id = 1;
  language = some "ru";
  full_text = "[AGENT] Алло";
  segments = record { speaker = "agent"; text = "Алло" } ∷ [];
  manager_side_applied = false;
  model = some "stt";
}

reconcile-once_example :
    (reconcile ManagerSide.side_b (reconcile ManagerSide.side_b transcript)
      ≡ reconcile ManagerSide.side_b transcript)
    × ((reconcile ManagerSide.side_b transcript).segments ≡ map swap_segment transcript.segments)
    × (map swap_segment (map swap_segment transcript.segments) ≡ transcript.segments)
reconcile-once_example = reconcile-once ManagerSide.side_b ManagerSide.side_b transcript refl

upsert_rows-keeps_example :
    (c' : Call) × (get 1 (upsert_rows 500 2 fields (scoring_row ∷ [])) ≡ some c')
    × SameWork scoring_row c'
unfolding get
upsert_rows-keeps_example = upsert_rows-keeps fields 500 2 1 (scoring_row ∷ []) refl

upsert_rows-twice_example :
    upsert_rows 600 3 fields (upsert_rows 500 2 fields (scoring_row ∷ []))
    ≡ upsert_rows 500 2 fields (scoring_row ∷ [])
upsert_rows-twice_example = upsert_rows-twice fields 500 600 2 3 (scoring_row ∷ [])

abbrev qualified_early : Qualification
qualified_early = record { qualified = some true; at = some 900 }

apply_scope_lem_example : ScopeOutcome defaults qualified_early scoped_row no_stats
apply_scope_lem_example = apply_scope_lem defaults qualified_early scoped_row no_stats

abbrev no_spaces : Text
no_spaces = record { is_space = λ c. false; is_line_end = λ c. false }

chunk_transcript-bound_example :
    (chunks : List String) × (chunk_transcript no_spaces 2 1 "abcde" ≡ some chunks)
    × All (λ c. count c ≤ 2) chunks
chunk_transcript-bound_example = chunk_transcript-bound 2 (omega arith) no_spaces 1 "abcde"

chunk_transcript-lossless_example :
    (chunks : List String) × (chunk_transcript no_spaces 2 0 "abcde" ≡ some chunks)
    × (join_lines chunks
        ≡ join_lines (split_all no_spaces 2 (lines_from no_spaces false false "abcde")))
unfolding is_blank
chunk_transcript-lossless_example =
    chunk_transcript-lossless 2 no_spaces "abcde" (omega arith) refl (omega arith)
