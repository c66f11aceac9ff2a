-- ===== src/Analysis/Job.antt =====
-- internal/domain/music_analysis.go: the job record. Go's `uint` and time values are numbers, a
-- nil pointer is `none`; created_at and updated_at, which no operation reads, are left out.
use music_online_go.Prelude.{ℕ, String, Bool, true, false, Option, none, List}

pub data Kind : Type 0 where
  metadata_rules audio_analysis : Kind
  other_kind : String → Kind

-- `unset` is the empty string, `other_status` any other text that is no status.
pub data Status : Type 0 where
  unset pending running succeeded failed stale cancelled : Status
  other_status : String → Status

unfoldable pub is_analysis_job_status : Status → Bool
is_analysis_job_status unset = false
is_analysis_job_status (other_status s) = false
is_analysis_job_status _ = true

unfoldable pub is_analysis_job_kind : Kind → Bool
is_analysis_job_kind (other_kind s) = false
is_analysis_job_kind _ = true

abbrev pub is_pending : Status → Bool
is_pending pending = true
is_pending _ = false

abbrev pub is_running : Status → Bool
is_running running = true
is_running _ = false

abbrev pub is_cancelled : Status → Bool
is_cancelled cancelled = true
is_cancelled _ = false

abbrev pub is_unset : Status → Bool
is_unset unset = true
is_unset _ = false

abbrev pub is_audio : Kind → Bool
is_audio audio_analysis = true
is_audio _ = false

-- `status IN activeAnalysisStatuses`
abbrev pub is_active : Status → Bool
is_active pending = true
is_active running = true
is_active _ = false

pub record Job : Type 0 where
  pub id : ℕ
  pub kind : Kind
  pub idempotency_key : String
  pub music_id : ℕ
  pub media_file_id : Option ℕ
  pub analysis_id : Option ℕ
  pub requested_by : ℕ
  pub file_hash : String
  pub observed_file_hash : String
  pub content_revision : ℕ
  pub metadata_revision : ℕ
  pub rule_version : String
  pub analyzer_id : String
  pub analyzer_version : String
  pub model_version : String
  pub status : Status
  pub attempt : ℕ
  pub max_attempts : ℕ
  pub available_at : Option ℕ
  pub cancel_requested : Bool
  pub started_at : Option ℕ
  pub heartbeat_at : Option ℕ
  pub finished_at : Option ℕ
  pub lease_owner : String
  pub lease_expires_at : Option ℕ
  pub lease_generation : ℕ
  pub error_code : String
  pub error_summary : String
  pub processing_ms : ℕ

-- A job with the zero value in every field.
abbrev pub zero_job : Job
zero_job = record {
  id = 0;
  kind = other_kind "";
  idempotency_key = "";
  music_id = 0;
  media_file_id = none;
  analysis_id = none;
  requested_by = 0;
  file_hash = "";
  observed_file_hash = "";
  content_revision = 0;
  metadata_revision = 0;
  rule_version = "";
  analyzer_id = "";
  analyzer_version = "";
  model_version = "";
  status = unset;
  attempt = 0;
  max_attempts = 0;
  available_at = none;
  cancel_requested = false;
  started_at = none;
  heartbeat_at = none;
  finished_at = none;
  lease_owner = "";
  lease_expires_at = none;
  lease_generation = 0;
  error_code = "";
  error_summary = "";
  processing_ms = 0;
}

-- The table `music_analysis_jobs` and the next value of its primary key.
pub record Store : Type 0 where
  pub jobs : List Job
  pub next_id : ℕ
