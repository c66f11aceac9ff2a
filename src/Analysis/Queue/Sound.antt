-- ===== src/Analysis/Queue/Sound.antt =====
-- The invariant of the job table.
use music_online_go.Analysis.Queue.{rejects_completion, may_complete, finished, reset, lease}
use music_online_go.Analysis.Job.{is_pending, is_running, Store, Job}
use music_online_go.Prelude.{arith, ◌<◌, ◌≤◌, none, some, true, false, ◌≡◌, All, Bool, Option}
use music_online_go.Analysis.Queue.Steps.{
  superseded, superseded_running, retried, exhausted, abandoned, flagged, cancelled_early, beaten,
  claimed, revived, Step, completed,
}

abbrev pub is_some : {A : Type 0} → Option A → Bool
is_some none = false
is_some (some a) = true

-- A running job has a deadline, any other job has no lease; no attempt passes the limit, and a
-- job that waits may still be tried.
pub record IsSound (j : Job) : Type 0 where
  pub leased : is_running j.status ≡ true → is_some j.lease_expires_at ≡ true
  pub released : is_running j.status ≡ false → (j.lease_owner ≡ "") × (j.lease_expires_at ≡ none)
  pub limited : 0 < j.max_attempts
  pub attempts : j.attempt ≤ j.max_attempts
  pub retryable : is_pending j.status ≡ true → j.attempt < j.max_attempts

abbrev pub IsSoundStore : Store → Type 0
IsSoundStore s = All IsSound s.jobs

pub Step-IsSound : (j k : Job) → Step j k → IsSound j → IsSound k
unfolding lease reset finished may_complete rejects_completion
Step-IsSound j k (revived now id _ e) h = ground arith
Step-IsSound j k (claimed now duration id owner _ e) h = ground arith
Step-IsSound j k (beaten now duration job _ e) h = ground arith
Step-IsSound j k (completed job _ r e fits) h = ground arith
Step-IsSound j k (cancelled_early now id _ e) h = ground arith
Step-IsSound j k (flagged id _ e) h = ground arith
Step-IsSound j k (abandoned now _ e) h = ground arith
Step-IsSound j k (exhausted now _ code summary e) h = ground arith
Step-IsSound j k (retried now _ code summary e) h = ground arith
Step-IsSound j k (superseded_running to_lower trim_space music_id hash code _ e) h = ground arith
Step-IsSound j k (superseded to_lower trim_space now music_id hash code summary _ e) h =
    ground arith
