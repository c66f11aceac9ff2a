-- ===== src/Analysis/Attempt.antt =====
-- internal/service/music_analysis_service.go: what a worker does with the outcome of an attempt,
-- and how it schedules retries. Times count nanoseconds from the epoch; a `time.Duration` is an
-- int64 of nanoseconds, as its bit pattern.
pub mod Backoff
pub mod Owed
pub mod Service
pub mod Runs
use music_online_go.Analysis.Queue.{enqueue, complete}
use music_online_go.Database.Session.{raise, pure, try, ◌>>=◌, ◌>>◌, Db}
use music_online_go.Database.Errors.{source_missing, analyzer_disabled, job_cancelled, err, Result}
use music_online_go.Analysis.Job.{
  metadata_rules, audio_analysis, zero_job, failed, pending, stale, cancelled, succeeded, is_audio,
  Store, Status, Job,
}
use music_online_go.Prelude.{
  word, ◌^◌, mul64, lt64, add64, [], ◌∷◌, not, List, ◌&&◌, none, zero, ◌*◌, some, ltb,
  if◌then◌else◌, Option, suc, ◌+◌, Bool, ◌-◌, String, ℕ,
}

-- The error of `processJob` and of the heartbeat, as the switch of `finishAttempt` sorts it.
pub data Outcome : Type 0 where
  success content_stale was_cancelled unexpected : Outcome
  failure : String → String → Bool → Outcome

-- `service.config.Analyzer`, the fields that this module reads.
pub record Settings : Type 0 where
  pub timeout_seconds : ℕ
  pub retry_initial_seconds : ℕ
  pub retry_max_seconds : ℕ
  pub retry_max_attempts : ℕ
  pub queue_limit : ℕ
  pub analyzer_id : String
  pub analyzer_version : String
  pub model_version : String

-- `time.Duration(n) * time.Second`
abbrev pub seconds : ℕ → ℕ
seconds n = mul64 n (10 ^ 9)

-- the body of the loop of `retryDelay`
abbrev pub doubled : ℕ → ℕ → ℕ
doubled delay maximum = if lt64 maximum (mul64 delay 2) then maximum else mul64 delay 2

-- the loop of `retryDelay`, with the rounds `attempt - 1` that are left
back_off : ℕ → ℕ → ℕ → ℕ
back_off zero delay maximum = delay
back_off (suc rounds) delay maximum =
    let rest = back_off rounds (doubled delay maximum) maximum in
    if lt64 delay maximum then rest else delay

unfoldable pub retry_delay : Settings → ℕ → ℕ
unfolding back_off
retry_delay cfg attempt =
    back_off (attempt - 1) (seconds cfg.retry_initial_seconds) (seconds cfg.retry_max_seconds)

unfoldable pub lease_duration : Settings → ℕ
lease_duration cfg =
    let duration = add64 (seconds cfg.timeout_seconds) (seconds 30) in
    if lt64 duration (seconds 60) then seconds 60 else duration

-- `now.Add(d)`, where d may be negative; a time before the epoch is the epoch
unfoldable pub add_duration : ℕ → ℕ → ℕ
add_duration now d = if lt64 d 0 then now - (word - d) else now + d

-- What `finishAttempt` finds out about the track only if it must: the hash of its present content,
-- if it can be read, and `strings.EqualFold`.
unfoldable pub cancelled_status : (String → String → Bool) → Option String → Job → Status
cancelled_status equal_fold current job =
    if is_audio job.kind
    then (elim current [
      | none ↦ cancelled
      | some hash ↦ if equal_fold hash job.file_hash then cancelled else stale
    ])
    else cancelled

-- The job as `finishAttempt` hands it to `Complete`. `truncate_text n s` keeps n bytes of a text.
module _ (truncate_text : String → ℕ → String) (equal_fold : String → String → Bool)
    (cfg : Settings) (now : ℕ) (current : Option String) where
  unfoldable pub prepared : Job → Outcome → Job
  unfolding cancelled_status retry_delay add_duration
  prepared job success = record job {
    heartbeat_at = some now;
    finished_at = some now;
    available_at = none;
    error_code = "";
    error_summary = "";
    status = succeeded;
  }
  prepared job content_stale = record job {
    heartbeat_at = some now;
    finished_at = some now;
    available_at = none;
    status = stale;
    error_code = "content_stale";
    error_summary = "track content or metadata changed after this job was created";
  }
  prepared job was_cancelled = record job {
    heartbeat_at = some now;
    finished_at = some now;
    available_at = none;
    status = cancelled_status equal_fold current job;
    error_code = "cancelled";
    error_summary = "analysis was cancelled";
  }
  prepared job (failure code summary retryable) =
      let reported = record job {
        heartbeat_at = some now;
        finished_at = some now;
        available_at = none;
        error_code = truncate_text code 64;
        error_summary = truncate_text summary 500;
      } in
      if retryable && ltb job.attempt job.max_attempts
      then record reported {
        status = pending;
        available_at = some (add_duration now (retry_delay cfg job.attempt));
        finished_at = none;
      }
      else record reported { status = failed }
  prepared job unexpected = record job {
    heartbeat_at = some now;
    finished_at = some now;
    available_at = none;
    status = failed;
    error_code = "analysis_failed";
    error_summary = "analysis failed unexpectedly";
  }

  unfoldable pub withdrawn : Job → Job
  unfolding cancelled_status
  withdrawn job = record job {
    status = cancelled_status equal_fold current job;
    error_code = "cancelled";
    error_summary = "analysis was cancelled";
    finished_at = some now;
    available_at = none;
  }

  after_complete : Job → Result Job → Db Store (Unit {0})
  unfolding withdrawn
  after_complete job (err job_cancelled) = do try (complete (withdrawn job)); pure tt
  after_complete job _ = pure tt

  -- The worker only logs an error that is left over.
  unfoldable pub finish_attempt : Job → Outcome → Db Store (Unit {0})
  unfolding prepared after_complete
  finish_attempt job outcome = do
    r ← try (complete (prepared job outcome))
    after_complete (prepared job outcome) r

-- `domain.AnalysisMusicCandidate`, with the fields of the track that a job is built from.
pub record Candidate : Type 0 where
  pub music_id : ℕ
  pub metadata_revision : ℕ
  pub media_file_id : Option ℕ
  pub file_hash : String
  pub content_revision : ℕ

-- `digest parts` is the SHA-256 of the parts, each ended by a NUL, `format_uint` is
-- `strconv.FormatUint` to base 10, and `valid_sha256` tells 64 hexadecimal digits.
module _ (digest : List String → String) (format_uint : ℕ → String) (cfg : Settings) where
  unfoldable pub metadata_job : String → Candidate → ℕ → Job
  metadata_job rule_version candidate requested_by = record zero_job {
    kind = metadata_rules;
    music_id = candidate.music_id;
    requested_by = requested_by;
    metadata_revision = candidate.metadata_revision;
    rule_version = rule_version;
    status = pending;
    max_attempts = cfg.retry_max_attempts;
    idempotency_key = digest (
        "metadata_rules"
        ∷ format_uint candidate.music_id
        ∷ format_uint candidate.metadata_revision
        ∷ rule_version
        ∷ []);
  }

  unfoldable pub enqueue_metadata : ℕ → String → Candidate → ℕ → Bool → Db Store (Job × Bool)
  unfolding metadata_job
  enqueue_metadata now rule_version candidate requested_by force =
      enqueue now (metadata_job rule_version candidate requested_by) force cfg.queue_limit

  unfoldable pub audio_job : Candidate → ℕ → Job
  audio_job candidate requested_by = record zero_job {
    kind = audio_analysis;
    music_id = candidate.music_id;
    media_file_id = candidate.media_file_id;
    requested_by = requested_by;
    file_hash = candidate.file_hash;
    content_revision = candidate.content_revision;
    metadata_revision = candidate.metadata_revision;
    analyzer_id = cfg.analyzer_id;
    analyzer_version = cfg.analyzer_version;
    model_version = cfg.model_version;
    status = pending;
    max_attempts = cfg.retry_max_attempts;
    idempotency_key = digest (
        "audio_analysis"
        ∷ format_uint candidate.music_id
        ∷ candidate.file_hash
        ∷ format_uint candidate.content_revision
        ∷ cfg.analyzer_id
        ∷ cfg.analyzer_version
        ∷ cfg.model_version
        ∷ []);
  }

  -- `analyzer` tells whether an analyzer is configured.
  unfoldable pub enqueue_audio :
      Bool → (String → Bool) → ℕ → Candidate → ℕ → Bool → Db Store (Job × Bool)
  unfolding audio_job
  enqueue_audio analyzer valid_sha256 now candidate requested_by force =
      if not analyzer
      then raise analyzer_disabled
      else if not (valid_sha256 candidate.file_hash)
      then raise source_missing
      else enqueue now (audio_job candidate requested_by) force cfg.queue_limit
