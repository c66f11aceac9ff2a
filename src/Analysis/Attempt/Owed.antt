-- ===== src/Analysis/Attempt/Owed.antt =====
-- What the service hands to the repository. A submitted job has no attempt and no lease. A finished
-- one stands for the lease that was claimed, and asks for another attempt only while attempts are
-- left.
use music_online_go.Analysis.Queue.Runs.{Reach-Tracks, Move, conn, IsOwed, IsFresh, Reach}
use music_online_go.Database.Session.{Conn, ◌>>=◌, raise}
use music_online_go.Analysis.Queue.Steps.{Rows}
use mathlib.Core.Bool.{false≢true}
use music_online_go.Database.Errors.{err, Result, job_cancelled}
use music_online_go.Analysis.Attempt.{
  Candidate, audio_job, metadata_job, finish_attempt, enqueue_audio, after_complete, unexpected,
  was_cancelled, content_stale, success, failure, Outcome, cancelled_status, withdrawn, prepared,
  Settings,
}
use music_online_go.Analysis.Queue.Fencing.{Tracks}
use music_online_go.Analysis.Job.{Store, is_pending, Job}
use music_online_go.Prelude.{
  inr, ◌∙◌, not, sym, Bool-cases, refl, inl, All-map, suc, List, ◌<◌, true, false, Option, Bool,
  arith, ◌≡◌, ℕ, String,
}

-- The worker's copy of a claimed job: processing may change all but what identifies the lease and
-- counts the attempts.
pub record IsWorked (copy job : Job) : Type 0 where
  pub id : job.id ≡ copy.id
  pub generation : job.lease_generation ≡ copy.lease_generation
  pub attempt : job.attempt ≡ copy.attempt
  pub max_attempts : job.max_attempts ≡ copy.max_attempts

pub Tracks-IsWorked : (copy job r : Job) → IsWorked copy job → Tracks copy r → Tracks job r
Tracks-IsWorked copy job r w h = record {
  later = λ e. ground (arith, w.id, w.generation, h.later);
  same = λ e g running. ground (arith, w.id, w.generation, w.attempt, w.max_attempts, h.same);
}

module _ (truncate_text : String → ℕ → String) (equal_fold : String → String → Bool)
    (cfg : Settings) (now : ℕ) (current : Option String) where
  cancelled_status-is_pending :
      (job : Job) → is_pending (cancelled_status equal_fold current job) ≡ false
  unfolding cancelled_status
  cancelled_status-is_pending job = ground arith

  pub prepared-IsWorked :
      (copy job : Job) (outcome : Outcome)
      → IsWorked copy job
      → IsWorked copy (prepared truncate_text equal_fold cfg now current job outcome)
  unfolding prepared
  prepared-IsWorked copy job outcome w = ground arith

  pub prepared-attempt :
      (job : Job) (outcome : Outcome)
      → is_pending (prepared truncate_text equal_fold cfg now current job outcome).status ≡ true
      → (prepared truncate_text equal_fold cfg now current job outcome).attempt
        < (prepared truncate_text equal_fold cfg now current job outcome).max_attempts
  unfolding prepared
  prepared-attempt job success h = absurd (cc)
  prepared-attempt job content_stale h = absurd (cc)
  prepared-attempt job was_cancelled h = absurd (ground (arith, cancelled_status-is_pending job))
  prepared-attempt job (failure code summary retryable) h = ground arith
  prepared-attempt job unexpected h = absurd (cc)

  pub withdrawn-is_pending :
      (job : Job)
      → is_pending (withdrawn truncate_text equal_fold cfg now current job).status ≡ false
  unfolding withdrawn
  withdrawn-is_pending job = cancelled_status-is_pending job

  pub withdrawn-IsWorked :
      (copy job : Job)
      → IsWorked copy job
      → IsWorked copy (withdrawn truncate_text equal_fold cfg now current job)
  unfolding withdrawn
  withdrawn-IsWorked copy job w = ground arith

pub metadata_job-IsFresh :
    (digest : List String → String) (format_uint : ℕ → String) (cfg : Settings)
    (rule_version : String) (candidate : Candidate) (requested_by : ℕ)
    → IsFresh (metadata_job digest format_uint cfg rule_version candidate requested_by)
unfolding metadata_job
metadata_job-IsFresh digest format_uint cfg rule_version candidate requested_by = record {
  waiting = inl refl;
  untried = refl;
  unowned = refl;
  unleased = refl;
}

audio_job-IsFresh :
    (digest : List String → String) (format_uint : ℕ → String) (cfg : Settings)
    (candidate : Candidate) (requested_by : ℕ)
    → IsFresh (audio_job digest format_uint cfg candidate requested_by)
unfolding audio_job
audio_job-IsFresh digest format_uint cfg candidate requested_by = record {
  waiting = inl refl;
  untried = refl;
  unowned = refl;
  unleased = refl;
}

pub enqueue_audio-Reach :
    (digest : List String → String) (format_uint : ℕ → String) (cfg : Settings) (analyzer : Bool)
    (valid_sha256 : String → Bool) (now : ℕ) (candidate : Candidate) (requested_by : ℕ)
    (force : Bool) (s : Store) (faults : ℕ → Bool)
    → Reach s
        (enqueue_audio digest format_uint cfg analyzer valid_sha256 now candidate requested_by force
          (conn s faults)).1.tables
unfolding enqueue_audio raise
enqueue_audio-Reach digest format_uint cfg analyzer valid_sha256 now candidate requested_by force s
      faults =
    elim (Bool-cases (not analyzer)) [
      | inl a ↦ rw a Reach.here
      | inr a ↦ elim (Bool-cases (not (valid_sha256 candidate.file_hash))) [
        | inl b ↦ rw (a, b) Reach.here
        | inr b ↦
            rw (a, b)
              (Reach.next Reach.here (
                Move.enqueues now (audio_job digest format_uint cfg candidate requested_by) force
                  cfg.queue_limit
                  (audio_job-IsFresh digest format_uint cfg candidate requested_by)))
      ]
    ]

-- What stands for a lease that is tracked may be completed.
owed :
    (copy job : Job) (s : Store)
    → Rows (Tracks copy) (suc copy.id) s
    → IsWorked copy job
    → (is_pending job.status ≡ true → job.attempt < job.max_attempts)
    → IsOwed job s
owed copy job s h w spared = record {
  tracked = All-map (λ r t. Tracks-IsWorked copy job r w t) s.jobs h.each;
  spared = spared;
}

module _ (truncate_text : String → ℕ → String) (equal_fold : String → String → Bool)
    (cfg : Settings) (now : ℕ) (current : Option String) where
  after_complete-Reach :
      (copy job : Job) (r : Result Job) (s : Store) (c : Conn Store)
      → IsWorked copy job
      → Rows (Tracks copy) (suc copy.id) c.tables
      → Reach s c.tables
      → Reach s (after_complete truncate_text equal_fold cfg now current job r c).1.tables
  unfolding after_complete ◌>>=◌
  after_complete-Reach copy job (err job_cancelled) s c w h run = Reach.next run (
      Move.completes (withdrawn truncate_text equal_fold cfg now current job) (
        owed copy _ c.tables h
          (withdrawn-IsWorked truncate_text equal_fold cfg now current copy job w)
          (λ p. absurd (
            false≢true
              (sym (withdrawn-is_pending truncate_text equal_fold cfg now current job) ∙ p)))))
  after_complete-Reach copy job _ s c w h run = run

  pub finish_attempt-Reach :
      (copy job : Job) (outcome : Outcome) (s : Store) (faults : ℕ → Bool)
      → IsWorked copy job
      → Rows (Tracks copy) (suc copy.id) s
      → Reach s
          (finish_attempt truncate_text equal_fold cfg now current job outcome
            (conn s faults)).1.tables
  unfolding finish_attempt ◌>>=◌
  finish_attempt-Reach copy job outcome s faults w h =
      let sent = prepared truncate_text equal_fold cfg now current job outcome in
      let same = prepared-IsWorked truncate_text equal_fold cfg now current copy job outcome w in
      let first = Reach.next Reach.here (
        Move.completes sent (
          owed copy sent s h same
            (λ p. prepared-attempt truncate_text equal_fold cfg now current job outcome p))) in
      after_complete-Reach copy sent _ s _ same (Reach-Tracks copy first h) first
