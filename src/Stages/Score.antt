-- ===== src/Stages/Score.antt =====
-- AtamuraOKK/scoring/worker.py: TRANSCRIBED -> SCORED.
-- The scoring model is a parameter: an assessment or an error text.
use atamura_okk.Base.{ℕ, ◌+◌, String, Bool, Option, none, some, List}
use atamura_okk.Store.{
  CallStatus, Call, Transcript, Score, Db, put, upsert_score, get_transcript, put_transcript,
}
use atamura_okk.Settings.{Settings}
use atamura_okk.Scoring.Rubric.{Rubric}
use atamura_okk.Scoring.CallScore.{CallScore}
use atamura_okk.Scoring.Assemble.{Payload, Assembled, payload, omitted, assemble}
use atamura_okk.Stages.Labels.{reconcile}
use atamura_okk.Stages.Alert.{maybe_notify}

pub data Assessed : Type 0 where
  assessment : CallScore → Assessed
  scoring_error : String → Assessed

-- What the environment of the last transaction decides.
pub record Env : Type 0 where
  pub now : ℕ
  pub settings : Settings
  pub rubric : Rubric
  pub model_label : String
  pub send_works : Bool

-- The branch of a call without a transcript: no attempt is counted.
unfoldable pub fail_without_transcript : Call → Call
fail_without_transcript c = record c {
  status = CallStatus.failed;
  error = some "no transcript";
  claimed_at = none;
}

unfoldable pub fail_row : String → Call → Call
fail_row e c = record c {
  status = CallStatus.failed;
  error = some e;
  attempts = c.attempts + 1;
  claimed_at = none;
}

unfoldable pub scored_row : Call → Call
scored_row c = record c { status = CallStatus.scored; error = none; claimed_at = none }

abbrev to_score : Env → Call → CallScore → Payload → Score
to_score env c r p = record {
  call_id = c.id;
  rubric_version = env.rubric.version;
  total_score = p.percent;
  criteria = p;
  sentiment_customer = r.sentiment_customer;
  sentiment_agent = r.sentiment_agent;
  summary = r.summary;
  flags = r.red_flags;
  model = env.model_label;
  manager_spoken_name = r.manager_spoken_name;
  notified_at = none;
}

abbrev pub reconcile_row : CallScore → ℕ → List Transcript → List Transcript
reconcile_row r i ts = elim (get_transcript i ts) [
  | none ↦ ts
  | some t ↦ put_transcript (reconcile r.manager_side t) ts
]

-- `_persist_score`, the labels, the status and the alert, in the order of the source.
unfoldable pub settle_scored : Env → CallScore → Payload → Call → Db → Db × Option ℕ
settle_scored env r p c db =
    let (scores, sent) =
      maybe_notify env.now env.settings.cash_alert_max_age_minutes env.send_works r
        env.rubric.version c db.managers (upsert_score (to_score env c r p) db.scores) in
    (
      record db {
        calls = put (scored_row c) db.calls;
        transcripts = reconcile_row r c.id db.transcripts;
        scores = scores;
      },
      sent,
    )

abbrev pub fail_call : Env → String → Call → Db → Db × Option ℕ
fail_call env e c db = (record db { calls = put (fail_row e c) db.calls }, none)

-- The `try` block and its handler: `_assemble` raises for an omitted criterion. The error text here
-- is the start of the message; the ids that follow it in the source are those of `omitted`.
unfoldable pub settle_assembled : Env → CallScore → Call → Db → Assembled → Db × Option ℕ
unfolding settle_scored fail_row
settle_assembled env r c db (payload p) = settle_scored env r p c db
settle_assembled env r c db (omitted missing) =
    fail_call env "scoring: scorer omitted criteria" c db

-- The last transaction of `score_one` for a row that is still claimed.
unfoldable pub settle : Env → Assessed → Call → Db → Db × Option ℕ
unfolding settle_assembled
settle env (scoring_error e) c db = fail_call env e c db
settle env (assessment r) c db =
    settle_assembled env r c db (assemble r env.rubric c.client_category)
