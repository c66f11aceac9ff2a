-- ===== src/Analysis/Queue/Fencing.antt =====
-- Leases: what the copy of a job that a worker holds says about the row behind it.
use music_online_go.Analysis.Queue.Steps.{
  superseded, superseded_running, retried, exhausted, abandoned, flagged, cancelled_early,
  completed, beaten, claimed, revived, Step,
}
use music_online_go.Database.Table.{count_rows}
use music_online_go.Analysis.Job.{is_running, Job}
use music_online_go.Analysis.Queue.{rejects_completion, holds, finished, reset, may_complete, lease}
use music_online_go.Prelude.{[], arith, true, ◌∷◌, All, ◌<◌, ◌≤◌, List, ◌≡◌, refl}

-- The row of a copy has moved on to a later lease, or it has the copy's lease and counts the
-- copy's attempts.
pub record Tracks (copy j : Job) : Type 0 where
  pub later : j.id ≡ copy.id → copy.lease_generation ≤ j.lease_generation
  pub same :
      j.id ≡ copy.id
      → j.lease_generation ≡ copy.lease_generation
      → is_running j.status ≡ true
      → (j.attempt ≡ copy.attempt) × (j.max_attempts ≡ copy.max_attempts)

-- The row of a copy has been leased again.
pub record IsFenced (copy j : Job) : Type 0 where
  pub later : j.id ≡ copy.id → copy.lease_generation < j.lease_generation

pub Step-Tracks : (copy j k : Job) → Step j k → Tracks copy j → Tracks copy k
unfolding lease reset finished rejects_completion
Step-Tracks copy j k (revived now id _ e) h = ground arith
Step-Tracks copy j k (claimed now duration id owner _ e) h = ground arith
Step-Tracks copy j k (beaten now duration job _ e) h = ground arith
Step-Tracks copy j k (completed job _ r e fits) h = ground arith
Step-Tracks copy j k (cancelled_early now id _ e) h = ground arith
Step-Tracks copy j k (flagged id _ e) h = ground arith
Step-Tracks copy j k (abandoned now _ e) h = ground arith
Step-Tracks copy j k (exhausted now _ code summary e) h = ground arith
Step-Tracks copy j k (retried now _ code summary e) h = ground arith
Step-Tracks copy j k (superseded_running to_lower trim_space music_id hash code _ e) h =
    ground arith
Step-Tracks copy j k (superseded to_lower trim_space now music_id hash code summary _ e) h =
    ground arith

pub Step-IsFenced : (copy j k : Job) → Step j k → IsFenced copy j → IsFenced copy k
unfolding lease reset finished
Step-IsFenced copy j k (revived now id _ e) h = ground arith
Step-IsFenced copy j k (claimed now duration id owner _ e) h = ground arith
Step-IsFenced copy j k (beaten now duration job _ e) h = ground arith
Step-IsFenced copy j k (completed job _ r e fits) h = ground arith
Step-IsFenced copy j k (cancelled_early now id _ e) h = ground arith
Step-IsFenced copy j k (flagged id _ e) h = ground arith
Step-IsFenced copy j k (abandoned now _ e) h = ground arith
Step-IsFenced copy j k (exhausted now _ code summary e) h = ground arith
Step-IsFenced copy j k (retried now _ code summary e) h = ground arith
Step-IsFenced copy j k (superseded_running to_lower trim_space music_id hash code _ e) h =
    ground arith
Step-IsFenced copy j k (superseded to_lower trim_space now music_id hash code summary _ e) h =
    ground arith

-- `worker` has the primary key and the lease of `copy`.
pub record IsCopy (copy worker : Job) : Type 0 where
  pub id : worker.id ≡ copy.id
  pub generation : worker.lease_generation ≡ copy.lease_generation

-- No row that is fenced off is held.
pub count_held :
    (copy worker : Job) (js : List Job)
    → IsCopy copy worker
    → All (IsFenced copy) js
    → count_rows (holds worker) js ≡ 0
unfolding count_rows
count_held copy worker [] w h = refl
count_held copy worker (j ∷ js) w h = ground (arith, count_held copy worker js w h.1)

pub count_completable :
    (copy worker : Job) (js : List Job)
    → IsCopy copy worker
    → All (IsFenced copy) js
    → count_rows (may_complete worker) js ≡ 0
unfolding count_rows may_complete
count_completable copy worker [] w h = refl
count_completable copy worker (j ∷ js) w h = ground (arith, count_completable copy worker js w h.1)
