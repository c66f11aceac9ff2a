-- ===== src/Analysis/Queue/Replies.antt =====
-- What the operations answer: lost leases, cancellation and idempotency.
use music_online_go.Database.Session.Success.{IsWorking}
use music_online_go.Analysis.Queue.Claims.{claim_next-IsFenced}
use music_online_go.Analysis.Queue.Runs.{Reach-IsFenced, Reach}
use music_online_go.Analysis.Queue.Fencing.{count_completable, count_held, IsCopy, Tracks}
use music_online_go.Analysis.Queue.Steps.{Rows}
use music_online_go.Database.Errors.{driver, err, ok, is_ok}
use music_online_go.Database.Table.{update_rows-count_rows, count_rows}
use music_online_go.Analysis.Job.{is_analysis_job_kind, is_cancelled, Store, Job}
use music_online_go.Prelude.{
  refl, ◌⊎◌, [], ◌∷◌, ◌||◌, suc, All, ◌==◌, str_eq, true, not, false, Bool, List, String, ◌+◌, some,
  arith, ◌≡◌, ℕ,
}
use music_online_go.Database.Session.{transaction, Conn, ◌>>=◌}
use music_online_go.Analysis.Queue.{
  claim_next, by_key, finished, enqueue, may_complete, holds, complete, heartbeat,
}

-- A heartbeat or a completion for which no row is held writes nothing and is refused.
heartbeat_lost :
    (now : ℕ) (job : Job) (duration : ℕ) (c : Conn Store)
    → count_rows (holds job) c.tables.jobs ≡ 0
    → ((heartbeat now job duration c).1.tables ≡ c.tables)
      × (is_ok (heartbeat now job duration c).0 ≡ false)
unfolding heartbeat ◌>>=◌
heartbeat_lost now job duration c none_held = (
  ground (
    arith,
    update_rows-count_rows (holds job)
        (λ j. record j { heartbeat_at = some now; lease_expires_at = some (now + duration) })
        c.tables.jobs none_held,
  ),
  ground arith,
)

complete_lost :
    (job : Job) (c : Conn Store)
    → count_rows (may_complete job) c.tables.jobs ≡ 0
    → ((complete job c).1.tables ≡ c.tables) × (is_ok (complete job c).0 ≡ false)
unfolding complete ◌>>=◌
complete_lost job c none_held = (
  ground (arith, update_rows-count_rows (may_complete job) (finished job) c.tables.jobs none_held),
  ground arith,
)

-- Once a claim has leased a job anew, a worker that holds an earlier lease on it can change
-- nothing any more: after any further operations of any processes, whatever the driver refuses,
-- its heartbeat and its completion fail and leave the tables as they are.
pub stale_worker :
    (copy worker : Job) (now duration : ℕ) (owner : String) (c d : Conn Store) (later wait : ℕ)
    {job : Job}
    → Rows (Tracks copy) (suc copy.id) c.tables
    → (claim_next now owner duration c).0 ≡ ok (some job)
    → job.id ≡ copy.id
    → Reach (claim_next now owner duration c).1.tables d.tables
    → IsCopy copy worker
    → ((heartbeat later worker wait d).1.tables ≡ d.tables)
      × (is_ok (heartbeat later worker wait d).0 ≡ false)
      × ((complete worker d).1.tables ≡ d.tables)
      × (is_ok (complete worker d).0 ≡ false)
stale_worker copy worker now duration owner c d later wait {job} h e same r w =
    let fenced =
      Reach-IsFenced copy r
        (claim_next-IsFenced copy (suc copy.id) now owner duration c h e same) in
    let (kept, refused) =
      heartbeat_lost later worker wait d (count_held copy worker d.tables.jobs w fenced.each) in
    let (kept', refused') =
      complete_lost worker d (count_completable copy worker d.tables.jobs w fenced.each) in
    (kept, refused, kept', refused')

count_flagged :
    (job : Job) (js : List Job)
    → is_cancelled job.status ≡ false
    → str_eq job.error_code "cancelled" ≡ false
    → All (λ j. holds job j ≡ true → j.cancel_requested ≡ true) js
    → count_rows (may_complete job) js ≡ 0
unfolding count_rows may_complete
count_flagged job [] s e h = refl
count_flagged job (j ∷ js) s e h = ground (arith, count_flagged job js s e h.1, h.0)

-- Cancellation wins: while the held row is flagged, no completion but a cancellation is stored.
pub cancellation_wins :
    (job : Job) (c : Conn Store)
    → is_cancelled job.status ≡ false
    → str_eq job.error_code "cancelled" ≡ false
    → All (λ j. holds job j ≡ true → j.cancel_requested ≡ true) c.tables.jobs
    → ((complete job c).1.tables ≡ c.tables) × (is_ok (complete job c).0 ≡ false)
cancellation_wins job c s e h = complete_lost job c (count_flagged job c.tables.jobs s e h)

-- The guard of Enqueue.
abbrev pub is_submittable : Job → Bool
is_submittable job =
    not
      (job.music_id == 0 || (str_eq job.idempotency_key "" || not (is_analysis_job_kind job.kind)))

-- Enqueueing a key that the table holds is idempotent: without `force` nothing is written, the
-- answer is the stored job, as unchanged, or else the driver's own error, and it is the stored job
-- if the driver refuses nothing.
pub enqueue_idempotent :
    (now : ℕ) (job : Job) (limit : ℕ) (c : Conn Store) {existing : Job}
    → is_submittable job ≡ true
    → by_key job.idempotency_key c.tables ≡ some existing
    → ((enqueue now job false limit c).1.tables ≡ c.tables)
      × (((enqueue now job false limit c).0 ≡ ok (existing, false))
          ⊎ ((enqueue now job false limit c).0 ≡ err driver))
      × (IsWorking c → (enqueue now job false limit c).0 ≡ ok (existing, false))
unfolding enqueue ◌>>=◌ transaction
enqueue_idempotent now job limit c {existing} g e =
    (ground arith, ground arith, λ works. ground (arith, works 0, works 1, works 2))
