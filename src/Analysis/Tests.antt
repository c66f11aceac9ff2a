-- ===== src/Analysis/Tests.antt =====
-- Runs of the job queue at concrete inputs.
use music_online_go.Analysis.Attempt.Service.{Work, Works, served}
use music_online_go.Analysis.Attempt.Service.{Works, taken, System}
use music_online_go.Analysis.Attempt.Runs.{Works-IsSound}
use music_online_go.Database.Session.Success.{IsWorking}
use mathlib.Core.List.{Mem, Memᴰ}
use music_online_go.Analysis.Attempt.Backoff.{retry_delay_overflow, retry_delay_lem}
use music_online_go.Analysis.Queue.Replies.{enqueue_idempotent, stale_worker, cancellation_wins}
use music_online_go.Analysis.Attempt.{finish_attempt, add_duration, failure, retry_delay, Settings}
use music_online_go.Analysis.Queue.Claims.{IsLeased, IsClaimable, claim_next_lem, Claims}
use music_online_go.Database.Table.{find_row, count_rows, update_rows, first_by}
use music_online_go.Database.Errors.{driver, err, ok, is_ok}
use music_online_go.Database.Session.{transaction, ◌>>=◌}
use music_online_go.Analysis.Queue.Fencing.{Tracks}
use music_online_go.Analysis.Queue.Sound.{IsSound}
use music_online_go.Analysis.Queue.Runs.{Reach, conn}
use music_online_go.Analysis.Queue.Steps.{Rows}
use music_online_go.Analysis.Queue.{enqueue, by_key, complete, heartbeat, lease, claim_next}
use music_online_go.Prelude.{
  lt64, ◌⊎◌, ◌^◌, ◌*◌, str_eq, min, String, ◌≤◌, All, some, refl, true, none, arith, false, [], ◌≡◌,
  Bool, ◌∷◌, ℕ,
}
use music_online_go.Analysis.Job.{
  is_analysis_job_kind, succeeded, pending, audio_analysis, zero_job, running, Job, Store,
}

abbrev no_faults : ℕ → Bool
no_faults n = false

-- A job that waits for its second attempt, after the worker "a" lost it.
abbrev waiting : Job
waiting = record zero_job {
  id = 1;
  kind = audio_analysis;
  idempotency_key = "k";
  music_id = 7;
  status = pending;
  attempt = 1;
  max_attempts = 3;
  available_at = some 100;
  lease_generation = 1;
}

-- What "a" still holds of it.
abbrev held_by_a : Job
held_by_a = record waiting {
  status = running;
  lease_owner = "a";
  available_at = none;
  lease_expires_at = some 90;
}

abbrev table : Store
table = record { jobs = waiting ∷ []; next_id = 2 }

abbrev claimed_by_b : Job
claimed_by_b = record waiting {
  status = running;
  attempt = 2;
  available_at = none;
  started_at = some 101;
  heartbeat_at = some 101;
  lease_owner = "b";
  lease_expires_at = some 161;
  lease_generation = 2;
}

claim_b : (claim_next 101 "b" 60 (conn table no_faults)).0 ≡ ok (some claimed_by_b)
unfolding claim_next lease ◌>>=◌ transaction first_by update_rows count_rows
claim_b = refl

table-IsSound : Rows IsSound 0 table
table-IsSound = record {
  each = (
    record {
      leased = λ e. cc;
      released = λ e. (refl, refl);
      limited = omega arith;
      attempts = omega arith;
      retryable = λ e. omega arith;
    },
    tt,
  );
  given = omega arith;
  keys = (omega arith, omega arith);
}

table-Tracks : Rows (Tracks held_by_a) 2 table
table-Tracks = record {
  each = (record { later = λ e. omega arith; same = λ e g r. cc }, tt);
  given = omega arith;
  keys = (omega arith, omega arith);
}

claim_next_lem_example :
    (j : Job) × Mem j (waiting ∷ [])
    × IsClaimable 101 j
    × All (λ k. IsClaimable 101 k → j.id ≤ k.id) (waiting ∷ [])
    × Claims 101 "b" 60 table (claim_next 101 "b" 60 (conn table no_faults)).1.tables j claimed_by_b
    × IsLeased 101 "b" 60 j claimed_by_b
claim_next_lem_example =
    claim_next_lem 101 "b" 60 (conn table no_faults) {job = claimed_by_b} (omega arith, omega arith)
      claim_b

abbrev keep_text : String → ℕ → String
keep_text s n = s

abbrev settings : Settings
settings = record {
  timeout_seconds = 120;
  retry_initial_seconds = 5;
  retry_max_seconds = 300;
  retry_max_attempts = 3;
  queue_limit = 100;
  analyzer_id = "x";
  analyzer_version = "1";
  model_version = "m";
}

abbrev after_claim : System
after_claim = record {
  tables = (claim_next 101 "b" 60 (conn table no_faults)).1.tables;
  held = taken (claim_next 101 "b" 60 (conn table no_faults)).0 [];
}

-- "b" has claimed the job, and hands it back for another attempt.
abbrev after_failure : System
after_failure =
    served
      (finish_attempt keep_text str_eq settings 130 none claimed_by_b
        (failure "timeout" "slow" true))
      after_claim no_faults

held_by_b : Memᴰ claimed_by_b after_claim.held
unfolding claim_next lease ◌>>=◌ transaction first_by update_rows count_rows
held_by_b = Memᴰ.head refl

Works-IsSound_example : Rows IsSound 0 after_failure.tables
Works-IsSound_example =
    Works-IsSound
      (Works.then_works {faults = no_faults}
        (Works.then_works {faults = no_faults} Works.idle (Work.claims 101 "b" 60))
        (Work.finishes keep_text str_eq settings 130 none claimed_by_b claimed_by_b
          (failure "timeout" "slow" true) held_by_b
          (record { id = refl; generation = refl; attempt = refl; max_attempts = refl })))
      table-IsSound

-- "a" comes back with a result, after "b" has the job.
abbrev late : Job
late = record held_by_a { status = succeeded }

stale_worker_example :
    let d = (claim_next 101 "b" 60 (conn table no_faults)).1 in
    ((heartbeat 110 late 60 d).1.tables ≡ d.tables)
    × (is_ok (heartbeat 110 late 60 d).0 ≡ false)
    × ((complete late d).1.tables ≡ d.tables)
    × (is_ok (complete late d).0 ≡ false)
stale_worker_example =
    stale_worker held_by_a late 101 60 "b" (conn table no_faults)
      (claim_next 101 "b" 60 (conn table no_faults)).1 110 60 {job = claimed_by_b} table-Tracks
      claim_b refl Reach.here (record { id = refl; generation = refl })

abbrev flagged_row : Job
flagged_row = record held_by_a { cancel_requested = true }

cancellation_wins_example :
    let c = conn (record { jobs = flagged_row ∷ []; next_id = 2 }) no_faults in
    ((complete late c).1.tables ≡ c.tables) × (is_ok (complete late c).0 ≡ false)
cancellation_wins_example =
    cancellation_wins late (conn (record { jobs = flagged_row ∷ []; next_id = 2 }) no_faults) refl
      refl ((λ e. refl), tt)

abbrev resubmitted : Job
resubmitted = record zero_job { kind = audio_analysis; idempotency_key = "k"; music_id = 7 }

enqueue_idempotent_example :
    ((enqueue 120 resubmitted false 10 (conn table no_faults)).1.tables ≡ table)
    × (((enqueue 120 resubmitted false 10 (conn table no_faults)).0 ≡ ok (waiting, false))
        ⊎ ((enqueue 120 resubmitted false 10 (conn table no_faults)).0 ≡ err driver))
    × (IsWorking (conn table no_faults)
        → (enqueue 120 resubmitted false 10 (conn table no_faults)).0 ≡ ok (waiting, false))
unfolding by_key find_row is_analysis_job_kind
enqueue_idempotent_example =
    enqueue_idempotent 120 resubmitted 10 (conn table no_faults) {existing = waiting} refl refl

retry_delay_lem_example : retry_delay settings 4 ≡ min (5 * 10 ^ 9 * 2 ^ 3) (300 * 10 ^ 9)
retry_delay_lem_example = retry_delay_lem settings 4 (omega arith) (omega arith)

-- a first delay of 158 years and a greatest of 285 years
abbrev patient : Settings
patient = record settings {
  retry_initial_seconds = 5_000_000_000;
  retry_max_seconds = 9_000_000_000;
}

retry_delay_overflow_example :
    (lt64 (retry_delay patient 2) 0 ≡ true) × (add_duration 200 (retry_delay patient 2) ≤ 200)
retry_delay_overflow_example =
    retry_delay_overflow patient 200 (omega arith) (omega arith) (omega arith)
