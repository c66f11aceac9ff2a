-- ===== src/Analysis/Queue.antt =====
-- internal/repository/music_analysis_repository.go: the operations on the job table. `now` is what
-- the operation reads from the clock.
pub mod Steps
pub mod Moves
pub mod Sound
pub mod Fencing
pub mod Runs
pub mod Keys
pub mod Claims
pub mod Replies
use music_online_go.Prelude.{
  ℕ, suc, ◌+◌, String, Bool, true, false, not, ◌&&◌, ◌||◌, Option, none, some, [], ◌∷◌, ◌++◌, ltb,
  leb, ◌==◌, str_eq, if◌then◌else◌,
}
use music_online_go.Database.Errors.{
  Error, Result, ok, err, record_not_found, job_not_found, lease_lost, queue_full, job_active,
  job_cancelled, invalid_job, invalid_completion,
}
use music_online_go.Database.Session.{
  Db, statement, query, pure, raise, try, transaction, ◌>>=◌, ◌>>◌,
}
use music_online_go.Database.Table.{count_rows, find_row, update_rows, first_by}
use music_online_go.Analysis.Job.{
  Job, Store, Status, pending, running, succeeded, failed, stale, cancelled, is_analysis_job_status,
  is_analysis_job_kind, is_pending, is_running, is_cancelled, is_unset, is_audio, is_active,
}

-- UPDATE music_analysis_jobs SET f WHERE p, with `RowsAffected`
unfoldable pub update_where : (Job → Bool) → (Job → Job) → Db Store ℕ
update_where p f =
    statement (λ s. (count_rows p s.jobs, record s { jobs = update_rows p f s.jobs }))

unfoldable pub or_else : {A : Type 0} → Error → Option A → Db Store A
or_else e none = raise e
or_else e (some a) = pure a

-- `tx.First(&job, id)`
unfoldable pub first_job : ℕ → Db Store (Option Job)
first_job id = query (λ s. first_by (λ j. j.id) (λ j. j.id == id) s.jobs)

unfoldable pub with_defaults : Job → Job
with_defaults job = record job {
  status = if is_unset job.status then pending else job.status;
  max_attempts = if job.max_attempts == 0 then 1 else job.max_attempts;
}

-- the SET clause of a forced enqueue
unfoldable pub reset : ℕ → Job → Job
reset now j = record j {
  status = pending;
  attempt = 0;
  available_at = some now;
  cancel_requested = false;
  started_at = none;
  heartbeat_at = none;
  finished_at = none;
  lease_owner = "";
  lease_expires_at = none;
  error_code = "";
  error_summary = "";
  processing_ms = 0;
  analysis_id = none;
  observed_file_hash = "";
}

revive : ℕ → Job → Db Store (Job × Bool)
unfolding reset update_where first_job or_else
revive now existing = if is_active existing.status then raise job_active else do
  affected ← update_where (λ j. j.id == existing.id && not (is_active j.status)) (reset now)
  if affected == 0
      then raise job_active
      else do found ← first_job existing.id; job ← or_else record_not_found found; pure (job, true)

-- `tx.Create(job)`, with the default of `AvailableAt`
unfoldable pub created : ℕ → Store → Job → Job
created now s job = record job {
  id = s.next_id;
  available_at = elim job.available_at [ none ↦ some now | some t ↦ some t ];
}

insert : ℕ → Job → Db Store (Job × Bool)
unfolding created
insert now job = do
  job' ← statement (λ s. (
    created now s job,
    record s { jobs = s.jobs ++ created now s job ∷ []; next_id = suc s.next_id },
  ))
  pure (job', true)

enqueue_found : ℕ → Job → Bool → ℕ → Option Job → Db Store (Job × Bool)
unfolding revive insert
enqueue_found now job force queue_limit (some existing) =
    if not force then pure (existing, false) else revive now existing
enqueue_found now job force queue_limit none =
    if ltb 0 queue_limit
    then (do
      active ← query (λ s. count_rows (λ j. is_active j.status) s.jobs)
      if leb queue_limit active then raise queue_full else insert now job)
    else insert now job

unfoldable pub by_key : String → Store → Option Job
by_key key s = find_row (λ j. str_eq j.idempotency_key key) s.jobs

stable : Error → Result (Option Job) → Db Store (Job × Bool)
stable e (ok (some existing)) = pure (existing, false)
stable e _ = raise e

-- What follows the transaction: any other failure is looked up once more, since another process
-- may have inserted the key.
resolve : String → Result (Job × Bool) → Db Store (Job × Bool)
unfolding by_key stable
resolve key (ok r) = pure r
resolve key (err queue_full) = raise queue_full
resolve key (err job_active) = raise job_active
resolve key (err e) = do found ← try (query (by_key key)); stable e found

unfoldable pub enqueue : ℕ → Job → Bool → ℕ → Db Store (Job × Bool)
unfolding enqueue_found by_key resolve is_analysis_job_kind
enqueue now job force queue_limit =
    if job.music_id == 0 || (str_eq job.idempotency_key "" || not (is_analysis_job_kind job.kind))
    then raise invalid_job
    else do
      outcome ← try (
          transaction (do
            found ← query (by_key job.idempotency_key)
            enqueue_found now (with_defaults job) force queue_limit found))
      resolve job.idempotency_key outcome

-- `available_at IS NULL OR available_at <= now`
abbrev pub is_due : Option ℕ → ℕ → Bool
is_due none now = true
is_due (some t) now = leb t now

abbrev pub is_claimable : ℕ → Job → Bool
is_claimable now j = is_pending j.status && (not j.cancel_requested && is_due j.available_at now)

-- the SET clause of a claim
unfoldable pub lease : ℕ → String → ℕ → Job → Job
lease now owner duration j = record j {
  status = running;
  attempt = suc j.attempt;
  available_at = none;
  started_at = elim j.started_at [ none ↦ some now | some t ↦ some t ];
  heartbeat_at = some now;
  finished_at = none;
  lease_owner = owner;
  lease_expires_at = some (now + duration);
  lease_generation = suc j.lease_generation;
  error_code = "";
  error_summary = "";
  processing_ms = 0;
}

claim_found : ℕ → String → ℕ → Option Job → Db Store (Option Job)
unfolding lease update_where first_job or_else
claim_found now owner duration none = pure none
claim_found now owner duration (some job) = do
  affected ←
      update_where (λ j. j.id == job.id && (is_pending j.status && not j.cancel_requested))
        (lease now owner duration)
  if affected == 0 then pure none else do
    found ← first_job job.id
    claimed ← or_else record_not_found found
    pure (some claimed)

claim_body : ℕ → String → ℕ → Db Store (Option Job)
unfolding claim_found
claim_body now owner duration = do
  found ← query (λ s. first_by (λ j. j.id) (is_claimable now) s.jobs)
  claim_found now owner duration found

unfoldable pub claim_next : ℕ → String → ℕ → Db Store (Option Job)
unfolding claim_body
claim_next now owner duration = transaction (claim_body now owner duration)

is_none : {A : Type 0} → Option A → Bool
is_none none = true
is_none (some a) = false

-- `Preload("Analysis")`: a second SELECT, for a job that has an analysis. Its rows are not modelled.
preload_analysis : Job → Db Store Job
unfolding is_none
preload_analysis job = if is_none job.analysis_id then pure job else do query (λ s. tt); pure job

unfoldable pub find_job : ℕ → Db Store Job
unfolding first_job or_else preload_analysis
find_job id = do found ← first_job id; job ← or_else job_not_found found; preload_analysis job

-- `id = ? AND status = running AND lease_owner = ? AND lease_generation = ?`
abbrev pub holds : Job → Job → Bool
holds job j =
    j.id == job.id
    && (is_running j.status
        && (str_eq j.lease_owner job.lease_owner && j.lease_generation == job.lease_generation))

unfoldable pub heartbeat : ℕ → Job → ℕ → Db Store (Bool × Job)
unfolding update_where first_job or_else
heartbeat now job duration = do
  affected ←
      update_where (holds job)
        (λ j. record j { heartbeat_at = some now; lease_expires_at = some (now + duration) })
  if affected == 0 then raise lease_lost else do
    found ← first_job job.id
    state ← or_else record_not_found found
    pure (
      state.cancel_requested || is_cancelled state.status,
      record job { heartbeat_at = some now; lease_expires_at = some (now + duration) },
    )

-- the guard of `Complete`
unfoldable pub rejects_completion : Job → Bool
unfolding is_none is_analysis_job_status
rejects_completion job =
    is_running job.status
    || (not (is_analysis_job_status job.status)
        || (is_pending job.status && is_none job.available_at))

-- a cancellation may consume a flagged lease, nothing else may
unfoldable pub may_complete : Job → Job → Bool
may_complete job j =
    holds job j
    && (is_cancelled job.status || str_eq job.error_code "cancelled" || not j.cancel_requested)

unfoldable pub finished : Job → Job → Job
finished job j = record j {
  status = job.status;
  analysis_id = job.analysis_id;
  observed_file_hash = job.observed_file_hash;
  heartbeat_at = job.heartbeat_at;
  finished_at = job.finished_at;
  available_at = job.available_at;
  error_code = job.error_code;
  error_summary = job.error_summary;
  processing_ms = job.processing_ms;
  lease_owner = "";
  lease_expires_at = none;
}

-- why no row was updated; an error of this SELECT counts as a lost lease
refusal : Job → Result (Option Job) → Error
refusal job (ok (some j)) = if j.cancel_requested && holds job j then job_cancelled else lease_lost
refusal job _ = lease_lost

refuse : Job → Db Store Job
unfolding refusal first_job
refuse job = do state ← try (first_job job.id); raise (refusal job state)

unfoldable pub complete : Job → Db Store Job
unfolding rejects_completion may_complete finished refuse update_where
complete job = if rejects_completion job then raise invalid_completion else do
  affected ← update_where (may_complete job) (finished job)
  if affected == 0
      then refuse job
      else pure (record job { lease_owner = ""; lease_expires_at = none })

flag_running : ℕ → Db Store ℕ
unfolding update_where
flag_running id =
    update_where (λ j. j.id == id && is_running j.status)
      (λ j. record j { cancel_requested = true })

cancel_in : ℕ → ℕ → Status → Db Store ℕ
unfolding flag_running update_where
cancel_in now id pending = do
  affected ←
      update_where (λ j. j.id == id && is_pending j.status)
        (λ j. record j { status = cancelled; cancel_requested = true; finished_at = some now })
  if affected == 0 then flag_running id else pure affected
cancel_in now id running = flag_running id
cancel_in now id _ = pure 0

unfoldable pub request_cancellation : ℕ → ℕ → Db Store Job
unfolding find_job cancel_in
request_cancellation now id = do job ← find_job id; cancel_in now id job.status; find_job id

-- `lease_expires_at IS NULL OR lease_expires_at <= now`
abbrev pub has_expired : ℕ → Job → Bool
has_expired now j = is_running j.status && is_due j.lease_expires_at now

unfoldable pub recover_expired : ℕ → Db Store ℕ
unfolding update_where
recover_expired now = do
  update_where (λ j. has_expired now j && j.cancel_requested)
      (λ j. record j {
        status = cancelled;
        finished_at = some now;
        lease_owner = "";
        lease_expires_at = none;
      })
  update_where (λ j. has_expired now j && (not j.cancel_requested && leb j.max_attempts j.attempt))
      (λ j. record j {
        status = failed;
        finished_at = some now;
        heartbeat_at = some now;
        error_code = "worker_lease_expired";
        error_summary = "analysis worker lease expired after the final attempt";
        lease_owner = "";
        lease_expires_at = none;
      })
  update_where (λ j. has_expired now j && (not j.cancel_requested && ltb j.attempt j.max_attempts))
      (λ j. record j {
        status = pending;
        available_at = some now;
        heartbeat_at = some now;
        error_code = "worker_lease_expired";
        error_summary = "analysis worker lease expired; the job will be retried";
        lease_owner = "";
        lease_expires_at = none;
      })

-- `status IN (pending, succeeded, failed)`
abbrev pub is_supersedable : Status → Bool
is_supersedable pending = true
is_supersedable succeeded = true
is_supersedable failed = true
is_supersedable _ = false

-- `strings.ToLower`, `strings.TrimSpace` and SQL's `LOWER`
module _ (to_lower trim_space : String → String) where
  unfoldable pub normalized_hash : String → String
  normalized_hash value = to_lower (trim_space value)

  unfoldable pub is_superseded : ℕ → String → Job → Bool
  is_superseded music_id hash j =
      j.music_id == music_id
      && (is_audio j.kind && (str_eq hash "" || not (str_eq (to_lower j.file_hash) hash)))

  unfoldable pub mark_superseded_audio : ℕ → ℕ → String → Db Store ℕ
  unfolding normalized_hash update_where
  mark_superseded_audio now music_id current = do
    update_where (λ j. is_superseded music_id (normalized_hash current) j && is_running j.status)
        (λ j. record j { cancel_requested = true; error_code = "content_superseded" })
    update_where
        (λ j. is_superseded music_id (normalized_hash current) j && is_supersedable j.status)
        (λ j. record j {
          status = stale;
          finished_at = some now;
          error_code = "content_superseded";
          error_summary = "track content changed after this analysis job was created";
        })
