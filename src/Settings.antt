-- ===== src/Settings.antt =====
-- AtamuraOKK/settings.py: the knobs that the modelled code reads. They are a parameter of the
-- operations; `defaults` has the values of the file.
use atamura_okk.Base.{ℕ, Bool, true}

pub record Settings : Type 0 where
  pub max_retries : ℕ
  pub claim_batch_size : ℕ
  pub claim_stale_seconds_download : ℕ
  pub claim_stale_seconds_transcribe : ℕ
  pub claim_stale_seconds_score : ℕ
  pub claim_job_timeout_margin_seconds : ℕ
  pub score_auto_today_only : Bool
  pub ingest_min_duration_sec : ℕ
  pub ingest_until_qualified : Bool
  pub cash_alert_max_age_minutes : ℕ

abbrev pub defaults : Settings
defaults = record {
  max_retries = 4;
  claim_batch_size = 50;
  claim_stale_seconds_download = 600;
  claim_stale_seconds_transcribe = 1800;
  claim_stale_seconds_score = 600;
  claim_job_timeout_margin_seconds = 120;
  score_auto_today_only = true;
  ingest_min_duration_sec = 90;
  ingest_until_qualified = true;
  cash_alert_max_age_minutes = 60;
}
