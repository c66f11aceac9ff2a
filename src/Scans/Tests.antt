-- ===== src/Scans/Tests.antt =====
-- Scan jobs and roots on concrete tables.
use music_online_go.Prelude.{
  ◌≢◌, ◌⊎◌, none, arith, ◌==◌, ◌∷◌, false, ◌≡◌, ◌≤◌, [], some, All, true, refl,
}
use music_online_go.Database.Errors.{Error, driver, scan_lease_lost, err, ok}
use music_online_go.Database.Session.{Conn, transaction, ◌>>=◌}
use music_online_go.Database.Table.{update_rows, delete_rows, first_by, count_rows}
use music_online_go.Scans.Job.{no_progress, running, retry_wait, ScanJob, Library, RootState}
use music_online_go.Scans.Queue.{
  is_active_for, update_scan_job, is_cancellation_requested, claim_next_scan,
}
use music_online_go.Scans.Queue.Runs.{IsRow, start}
use music_online_go.Scans.Queue.Fencing.{stale_scan_worker, cancellation_kept}
use music_online_go.Scans.Roots.{upsert_root_state, delete_root}
use music_online_go.Scans.Roots.Laws.{
  delete_root_lem, upsert_root_state-IsSince, without_root, IsSince,
}

-- A scan that waits for its second attempt, after the worker "a" lost it.
abbrev waiting : ScanJob
waiting = record {
  id = 1;
  root_id = 4;
  status = retry_wait;
  cancel_requested = true;
  progress = no_progress;
  started_at = some 10;
  heartbeat_at = some 50;
  finished_at = none;
  error_summary = "";
  attempt = 1;
  next_attempt_at = some 60;
  failure_code = "worker_lease_expired";
  failure_retryable = true;
  lease_owner = "";
  lease_expires_at = none;
  lease_generation = 1;
}

-- What "a" still holds of it.
abbrev held_by_a : ScanJob
held_by_a = record waiting { status = running; lease_owner = "a"; lease_expires_at = some 55 }

abbrev probe : RootState
probe = record {
  root_id = 4;
  health = "online";
  code = "";
  message = "";
  retryable = false;
  last_checked_at = some 30;
  last_online_at = some 30;
}

abbrev library : Library
library = record {
  jobs = waiting ∷ [];
  issues = [];
  roots = 4 ∷ [];
  states = probe ∷ [];
  files = [];
  next_job = 2;
  next_issue = 1;
}

abbrev conn : Conn Library
conn = record { tables = library; faults = λ n. false }

abbrev claimed_by_b : ScanJob
claimed_by_b = record waiting {
  status = running;
  heartbeat_at = some 70;
  attempt = 2;
  next_attempt_at = none;
  failure_code = "";
  failure_retryable = false;
  lease_owner = "b";
  lease_expires_at = some 170;
  lease_generation = 2;
}

b_claims : (claim_next_scan 70 100 "b" conn).0 ≡ ok (some claimed_by_b)
unfolding claim_next_scan first_by count_rows update_rows delete_rows transaction ◌>>=◌
b_claims = refl

abbrev later : Conn Library
later = record { tables = (claim_next_scan 70 100 "b" conn).1.tables; faults = λ n. false }

row : IsRow 1 (λ j. 1 ≤ j.lease_generation) library
unfolding count_rows
row = record { given_out = omega arith; once = omega arith; every = ((λ e. omega arith), tt) }

stale_scan_worker_example :
    (((update_scan_job held_by_a later).0 ≡ err scan_lease_lost)
      ⊎ ((update_scan_job held_by_a later).0 ≡ err driver))
    × ((update_scan_job held_by_a later).1.tables ≡ later.tables)
stale_scan_worker_example =
    stale_scan_worker 70 100 "b" held_by_a conn later refl row start b_claims refl start

flagged_row : IsRow 1 (λ j. j.cancel_requested ≡ true) library
unfolding count_rows
flagged_row = record { given_out = omega arith; once = omega arith; every = ((λ e. refl), tt) }

asked : (is_cancellation_requested 1 conn).0 ≡ ok true
unfolding is_cancellation_requested first_by ◌>>=◌
asked = refl

cancellation_kept_example : (is_cancellation_requested 1 conn).0 ≢ ok false
cancellation_kept_example = cancellation_kept {s = library} 1 conn flagged_row start

abbrev idle : Conn Library
idle = record { tables = record library { jobs = [] }; faults = λ n. false }

delete_root_lem_example :
    ((delete_root 4 idle).0 ≡ ok tt
      → (count_rows (is_active_for 4) idle.tables.jobs ≡ 0)
        × (count_rows (λ f. f.root_id == 4) idle.tables.files ≡ 0)
        × (1 ≤ count_rows (λ r. r == 4) idle.tables.roots)
        × ((delete_root 4 idle).1.tables ≡ without_root 4 idle.tables))
    × ((e : Error) → (delete_root 4 idle).0 ≡ err e → (delete_root 4 idle).1.tables ≡ idle.tables)
delete_root_lem_example = delete_root_lem 4 idle

root_deleted : (delete_root 4 idle).0 ≡ ok tt
unfolding delete_root count_rows delete_rows transaction ◌>>=◌
root_deleted = refl

abbrev old_probe : RootState
old_probe = record probe { health = "offline"; last_checked_at = some 20 }

probed : 1 ≤ count_rows (λ r. r.root_id == 4) library.states
unfolding count_rows
probed = omega arith

upsert_root_state-IsSince_example :
    All
      (λ r. r.root_id ≡ 4 → IsSince 30 r.last_checked_at)
      (upsert_root_state old_probe conn).1.tables.states
upsert_root_state-IsSince_example =
    upsert_root_state-IsSince 4 30 old_probe conn probed ((λ e. omega arith), tt)
