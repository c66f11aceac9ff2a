-- ===== src/Analysis/Attempt/Service.antt =====
-- The server's processes at work: the job table, the jobs that workers have claimed, and what the
-- service does with them through the repository, in any order and whatever the driver refuses.
use music_online_go.Analysis.Attempt.Owed.{IsWorked}
use mathlib.Core.List.{Memᴰ}
use music_online_go.Analysis.Queue.{
  mark_superseded_audio, recover_expired, request_cancellation, heartbeat, claim_next,
}
use music_online_go.Analysis.Queue.Runs.{conn}
use music_online_go.Analysis.Attempt.{
  finish_attempt, Outcome, enqueue_audio, enqueue_metadata, Candidate, Settings,
}
use music_online_go.Analysis.Job.{Job, Store}
use music_online_go.Database.Session.{Db}
use music_online_go.Prelude.{◌∷◌, some, String, Option, List, Bool, ℕ}
use music_online_go.Database.Errors.{ok, Result}

pub record System : Type 0 where
  pub tables : Store
  -- the copies that `ClaimNext` has returned to a worker
  pub held : List Job

-- a claim that returns a job gives it to a worker
abbrev pub taken : Result (Option Job) → List Job → List Job
taken (ok (some job)) held = job ∷ held
taken _ held = held

-- What one call of the service leaves of the tables.
abbrev pub served : {A : Type 0} → Db Store A → System → (ℕ → Bool) → System
served m w faults = record w { tables = (m (conn w.tables faults)).1.tables }

-- A worker may finish a job that it claimed at any later time, more than once, and with any outcome.
pub data Work (w : System) (faults : ℕ → Bool) : System → Type 0 where
  submits_metadata :
      (digest : List String → String) (format_uint : ℕ → String) (cfg : Settings) (now : ℕ)
      (rule_version : String) (candidate : Candidate) (requested_by : ℕ) (force : Bool)
      → Work w faults (
          served
            (enqueue_metadata digest format_uint cfg now rule_version candidate requested_by force)
            w
            faults)
  submits_audio :
      (digest : List String → String) (format_uint : ℕ → String) (cfg : Settings) (analyzer : Bool)
      (valid_sha256 : String → Bool) (now : ℕ) (candidate : Candidate) (requested_by : ℕ)
      (force : Bool)
      → Work w faults (
          served
            (enqueue_audio digest format_uint cfg analyzer valid_sha256 now candidate requested_by
              force)
            w
            faults)
  claims :
      (now : ℕ) (owner : String) (duration : ℕ)
      → Work w faults (record {
        tables = (claim_next now owner duration (conn w.tables faults)).1.tables;
        held = taken (claim_next now owner duration (conn w.tables faults)).0 w.held;
      })
  beats :
      (now : ℕ) (job : Job) (duration : ℕ)
      → Work w faults (served (heartbeat now job duration) w faults)
  finishes :
      (truncate_text : String → ℕ → String) (equal_fold : String → String → Bool) (cfg : Settings)
      (now : ℕ) (current : Option String) (copy job : Job) (outcome : Outcome)
      → Memᴰ copy w.held
      → IsWorked copy job
      → Work w faults
          (served (finish_attempt truncate_text equal_fold cfg now current job outcome) w faults)
  cancels : (now id : ℕ) → Work w faults (served (request_cancellation now id) w faults)
  recovers : (now : ℕ) → Work w faults (served (recover_expired now) w faults)
  supersedes :
      (to_lower trim_space : String → String) (now music_id : ℕ) (current : String)
      → Work w faults
          (served (mark_superseded_audio to_lower trim_space now music_id current) w faults)

pub data Works (v : System) : System → Type 0 where
  idle : Works v v
  then_works : {w x : System} {faults : ℕ → Bool} → Works v w → Work w faults x → Works v x
