-- ===== src/Scans/Job.antt =====
-- The rows of internal/domain/media_library.go that belong to scan jobs. Times are numbers of
-- nanoseconds, a nil pointer is `none`; columns that no operation reads or sets are left out.
use music_online_go.Prelude.{false, ◌||◌, String, Option, true, Bool, List, ℕ}

pub data ScanStatus : Type 0 where
  pending running retry_wait succeeded failed cancelled : ScanStatus

abbrev pub is_waiting : ScanStatus → Bool
is_waiting pending = true
is_waiting retry_wait = true
is_waiting _ = false

abbrev pub is_running_scan : ScanStatus → Bool
is_running_scan running = true
is_running_scan _ = false

abbrev pub is_retry_wait : ScanStatus → Bool
is_retry_wait retry_wait = true
is_retry_wait _ = false

abbrev pub is_cancelled_scan : ScanStatus → Bool
is_cancelled_scan cancelled = true
is_cancelled_scan _ = false

abbrev pub same_status : ScanStatus → ScanStatus → Bool
same_status pending pending = true
same_status running running = true
same_status retry_wait retry_wait = true
same_status succeeded succeeded = true
same_status failed failed = true
same_status cancelled cancelled = true
same_status _ _ = false

-- `activeMediaScanStatuses`
abbrev pub is_active_scan : ScanStatus → Bool
is_active_scan s = is_waiting s || is_running_scan s

pub record ScanProgress : Type 0 where
  pub discovered : ℕ
  pub processed : ℕ
  pub imported : ℕ
  pub existing : ℕ
  pub duplicate : ℕ
  pub skipped : ℕ
  pub warning : ℕ
  pub failed_count : ℕ

abbrev pub no_progress : ScanProgress
no_progress = record {
  discovered = 0;
  processed = 0;
  imported = 0;
  existing = 0;
  duplicate = 0;
  skipped = 0;
  warning = 0;
  failed_count = 0;
}

pub record ScanJob : Type 0 where
  pub id : ℕ
  pub root_id : ℕ
  pub status : ScanStatus
  pub cancel_requested : Bool
  pub progress : ScanProgress
  pub started_at : Option ℕ
  pub heartbeat_at : Option ℕ
  pub finished_at : Option ℕ
  pub error_summary : String
  pub attempt : ℕ
  pub next_attempt_at : Option ℕ
  pub failure_code : String
  pub failure_retryable : Bool
  pub lease_owner : String
  pub lease_expires_at : Option ℕ
  pub lease_generation : ℕ

pub record ScanIssue : Type 0 where
  pub id : ℕ
  pub job_id : ℕ
  pub code : String
  pub message : String

pub record RootState : Type 0 where
  pub root_id : ℕ
  pub health : String
  pub code : String
  pub message : String
  pub retryable : Bool
  pub last_checked_at : Option ℕ
  pub last_online_at : Option ℕ

pub record MediaFile : Type 0 where
  pub id : ℕ
  pub music_id : ℕ
  pub root_id : ℕ
  pub read_only : Bool
  pub availability : String
  pub last_seen_at : Option ℕ

-- The tables. Of the roots only the ids matter here.
pub record Library : Type 0 where
  pub jobs : List ScanJob
  pub issues : List ScanIssue
  pub roots : List ℕ
  pub states : List RootState
  pub files : List MediaFile
  pub next_job : ℕ
  pub next_issue : ℕ
