-- ===== src/Scans/Queue.antt =====
-- internal/repository/media_library_repository.go: scan jobs. What the partial unique index on active
-- jobs refuses is among the statements that the driver may refuse. `now` is what the operation reads from
-- the clock.
pub mod Runs
pub mod Claims
pub mod Fencing
use music_online_go.Prelude.{
  ◌+◌, suc, [], leb, false, ◌&&◌, ◌∷◌, none, str_eq, take, List, ◌++◌, ◌==◌, true, not, ltb, ◌||◌,
  some, String, if◌then◌else◌, Bool, ℕ, Option,
}
use music_online_go.Database.Errors.{
  scan_lease_lost, err, scan_in_progress, scan_not_found, ok, record_not_found, Result, Error,
}
use music_online_go.Database.Session.{
  Db, statement, query, pure, raise, try, transaction, ◌>>=◌, ◌>>◌,
}
use music_online_go.Database.Table.{where_rows, delete_rows, update_rows, count_rows, first_by}
use music_online_go.Database.Order.{order_by, page_of}
use music_online_go.Scans.Job.{
  no_progress, is_active_scan, is_retry_wait, pending, is_cancelled_scan, same_status,
  is_running_scan, is_waiting, running, Library, retry_wait, ScanStatus, cancelled, ScanIssue,
  ScanJob,
}

-- UPDATE media_scan_jobs SET f WHERE p, with `RowsAffected`
unfoldable pub update_scans : (ScanJob → Bool) → (ScanJob → ScanJob) → Db Library ℕ
update_scans p f =
    statement (λ s. (count_rows p s.jobs, record s { jobs = update_rows p f s.jobs }))

abbrev pub is_active_for : ℕ → ScanJob → Bool
is_active_for root_id j = j.root_id == root_id && is_active_scan j.status

-- `HasActiveScanForRoot`
unfoldable pub has_active_scan : ℕ → Db Library Bool
has_active_scan root_id = query (λ s. ltb 0 (count_rows (is_active_for root_id) s.jobs))

unfoldable pub stored_scan : ℕ → ScanJob → ScanJob
stored_scan id job = record job { id = id }

unfoldable pub insert_scan : ScanJob → Db Library ScanJob
unfolding stored_scan
insert_scan job = statement (λ s. (
  stored_scan s.next_job job,
  record s { jobs = s.jobs ++ stored_scan s.next_job job ∷ []; next_job = suc s.next_job },
))

unfoldable pub create_unless : ScanJob → ℕ → Db Library ScanJob
unfolding insert_scan
create_unless job count = if ltb 0 count then raise scan_in_progress else insert_scan job

-- What follows the transaction of `CreateScanJob`: any other failure is looked up, since another
-- process may have won the race.
abbrev pub is_in_progress : Error → Bool
is_in_progress scan_in_progress = true
is_in_progress _ = false

unfoldable pub blame : Error → Result Bool → Db Library ScanJob
blame e (ok true) = raise scan_in_progress
blame e _ = raise e

unfoldable pub resolve_scan : ℕ → Result ScanJob → Db Library ScanJob
unfolding has_active_scan blame
resolve_scan root_id (ok job) = pure job
resolve_scan root_id (err e) =
    if is_in_progress e then raise e else do active ← try (has_active_scan root_id); blame e active

-- `CreateScanJob`
unfoldable pub create_scan_job : ScanJob → Db Library ScanJob
unfolding create_unless resolve_scan
create_scan_job job = do
  made ← try (
      transaction (do
        count ← query (λ s. count_rows (is_active_for job.root_id) s.jobs)
        create_unless job count))
  resolve_scan job.root_id made

abbrev pub is_due_scan : ℕ → Option ℕ → Bool
is_due_scan now none = true
is_due_scan now (some t) = leb t now

unfoldable pub is_claimable_scan : ℕ → ScanJob → Bool
is_claimable_scan now j =
    same_status j.status pending || is_retry_wait j.status && is_due_scan now j.next_attempt_at

-- the SET clause of a claim
unfoldable pub leased_scan : ℕ → ℕ → String → ScanJob → ScanJob
leased_scan now duration owner j = record j {
  status = running;
  started_at = elim j.started_at [ none ↦ some now | some t ↦ some t ];
  heartbeat_at = some now;
  attempt = suc j.attempt;
  next_attempt_at = none;
  finished_at = none;
  failure_code = "";
  failure_retryable = false;
  error_summary = "";
  lease_owner = owner;
  lease_expires_at = some (now + duration);
  lease_generation = suc j.lease_generation;
  progress = no_progress;
}

unfoldable pub claim_read : Option ScanJob → Db Library (Option ScanJob)
claim_read none = raise record_not_found
claim_read (some j) = pure (some j)

unfoldable pub claim_updated : ScanJob → ℕ → Db Library (Option ScanJob)
unfolding claim_read
claim_updated job affected = if affected == 0 then pure none else do
  statement (λ s. (tt, record s { issues = delete_rows (λ i. i.job_id == job.id) s.issues }))
  found ← query (λ s. first_by (λ j. j.id) (λ j. j.id == job.id) s.jobs)
  claim_read found

unfoldable pub claim_scan : ℕ → ℕ → String → Option ScanJob → Db Library (Option ScanJob)
unfolding update_scans leased_scan claim_updated
claim_scan now duration owner none = pure none
claim_scan now duration owner (some job) = do
  affected ←
      update_scans (λ j. j.id == job.id && same_status j.status job.status)
        (leased_scan now duration owner)
  claim_updated job affected

-- `ClaimNextScanJob`
unfoldable pub claim_next_scan : ℕ → ℕ → String → Db Library (Option ScanJob)
unfolding is_claimable_scan claim_scan
claim_next_scan now duration owner = transaction (do
  found ← query (λ s. first_by (λ j. j.id) (is_claimable_scan now) s.jobs)
  claim_scan now duration owner found)

unfoldable pub found_scan : Option ScanJob → Db Library ScanJob
found_scan none = raise scan_not_found
found_scan (some j) = pure j

-- `FindScanJob`
unfoldable pub find_scan_job : ℕ → Db Library ScanJob
unfolding found_scan
find_scan_job id = do
  found ← query (λ s. first_by (λ j. j.id) (λ j. j.id == id) s.jobs)
  found_scan found

-- `ListScanJobs`
abbrev pub is_of_root : Option ℕ → ScanJob → Bool
is_of_root none j = true
is_of_root (some root_id) j = j.root_id == root_id

unfoldable pub list_scan_jobs : Option ℕ → ℕ → ℕ → Db Library (List ScanJob × ℕ)
unfolding page_of order_by
list_scan_jobs root_id page page_size = do
  total ← query (λ s. count_rows (is_of_root root_id) s.jobs)
  jobs ← query (λ s.
      page_of page page_size
        (order_by (λ i j. leb j.id i.id) (where_rows (is_of_root root_id) s.jobs)))
  pure (jobs, total)

-- The WHERE clause of `UpdateScanJob`: a copy with an owner is fenced.
unfoldable pub holds_scan : ScanJob → ScanJob → Bool
holds_scan job j =
    j.id == job.id
    && (str_eq job.lease_owner ""
        || str_eq j.lease_owner job.lease_owner && j.lease_generation == job.lease_generation)

-- the worker's copy without its lease once it has stopped
unfoldable pub released_copy : ScanJob → ScanJob
released_copy job =
    if is_running_scan job.status
    then job
    else record job { lease_owner = ""; lease_expires_at = none }

-- its SET clause, which leaves cancel_requested alone
unfoldable pub flushed : ScanJob → ScanJob → ScanJob
unfolding released_copy
flushed job j = record j {
  status = job.status;
  progress = job.progress;
  started_at = job.started_at;
  heartbeat_at = job.heartbeat_at;
  finished_at = job.finished_at;
  error_summary = job.error_summary;
  attempt = job.attempt;
  next_attempt_at = job.next_attempt_at;
  failure_code = job.failure_code;
  failure_retryable = job.failure_retryable;
  lease_owner = if is_running_scan job.status then j.lease_owner else "";
  lease_expires_at = if is_running_scan job.status then job.lease_expires_at else none;
}

unfoldable pub check_flush : ScanJob → ℕ → Db Library ScanJob
unfolding released_copy
check_flush job affected =
    if not (str_eq job.lease_owner "") && affected == 0
    then raise scan_lease_lost
    else pure (released_copy job)

-- `UpdateScanJob`
unfoldable pub update_scan_job : ScanJob → Db Library ScanJob
unfolding update_scans holds_scan flushed check_flush
update_scan_job job = do
  affected ← update_scans (holds_scan job) (flushed job)
  check_flush job affected

unfoldable pub flag_running_scan : ℕ → Db Library ℕ
unfolding update_scans
flag_running_scan id =
    update_scans (λ j. j.id == id && is_running_scan j.status)
      (λ j. record j { cancel_requested = true })

unfoldable pub withdrawn_scan : ℕ → ScanJob → ScanJob
withdrawn_scan now j = record j {
  status = cancelled;
  cancel_requested = true;
  finished_at = some now;
}

-- What `RequestScanCancellation` does in the status that it read.
unfoldable pub cancel_scan_in : ℕ → ℕ → ScanStatus → Db Library Unit
unfolding update_scans withdrawn_scan flag_running_scan
cancel_scan_in now id status =
    if is_waiting status
    then (do
      affected ← update_scans (λ j. j.id == id && is_waiting j.status) (withdrawn_scan now)
      if affected == 0 then flag_running_scan id >> pure tt else pure tt)
    else if is_running_scan status
    then flag_running_scan id >> pure tt
    else pure tt

-- `RequestScanCancellation`
unfoldable pub request_scan_cancellation : ℕ → ℕ → Db Library ScanJob
unfolding find_scan_job cancel_scan_in
request_scan_cancellation now id = do
  job ← find_scan_job id
  cancel_scan_in now id job.status
  find_scan_job id

-- `IsScanCancellationRequested`
unfoldable pub is_cancellation_requested : ℕ → Db Library Bool
unfolding find_scan_job
is_cancellation_requested id = do
  job ← find_scan_job id
  pure (job.cancel_requested || is_cancelled_scan job.status)

unfoldable pub has_expired_scan : ℕ → ScanJob → Bool
has_expired_scan now j = is_running_scan j.status && is_due_scan now j.lease_expires_at

unfoldable pub recovered : ℕ → ScanJob → ScanJob
recovered now j = record j {
  status = retry_wait;
  next_attempt_at = some now;
  heartbeat_at = some now;
  failure_code = "worker_lease_expired";
  failure_retryable = true;
  lease_owner = "";
  lease_expires_at = none;
  error_summary = "scan worker lease expired; the job will resume incrementally";
}

-- `RecoverExpiredScanJobs`
unfoldable pub recover_expired_scans : ℕ → Db Library Unit
unfolding update_scans has_expired_scan recovered
recover_expired_scans now = update_scans (has_expired_scan now) (recovered now) >> pure tt

-- `CreateScanIssue`
unfoldable pub create_scan_issue : ScanIssue → Db Library Unit
create_scan_issue issue = statement (λ s. (
  tt,
  record s {
    issues = s.issues ++ record issue { id = s.next_issue } ∷ [];
    next_issue = suc s.next_issue;
  },
))

-- `ListScanIssues`
unfoldable pub list_scan_issues : ℕ → ℕ → Db Library (List ScanIssue)
unfolding order_by
list_scan_issues job_id limit = query (λ s.
    take limit (order_by (λ i j. leb i.id j.id) (where_rows (λ i. i.job_id == job_id) s.issues)))
