-- ===== src/Analysis/Queue/Moves.antt =====
-- Every operation of the repository moves each row by steps of the state machine, and adds only
-- the new row of an enqueue: what all steps keep, every operation keeps.
use music_online_go.Prelude.{
  arith, ◌≤◌, refl, inr, inl, Bool-cases, false, String, &&_iff, ◌<◌, ℕ, Bool, true, ◌≡◌, Option,
  none, some, All-append,
}
use music_online_go.Database.Errors.{job_active, queue_full, err, ok, Result, Error}
use music_online_go.Database.Session.Keeps.{
  Keeps, Keeps-statement, Keeps-bind, Keeps-pure, keeps_rules,
}
use music_online_go.Database.Table.{All-update_rows}
use music_online_go.Analysis.Job.{running, pending, is_pending, Store, Status, Job}
use music_online_go.Analysis.Queue.{
  preload_analysis, stable, finished, with_defaults, resolve, created, holds, insert, flag_running,
  claim_next, recover_expired, request_cancellation, mark_superseded_audio, complete, claim_found,
  may_complete, cancel_in, enqueue, revive, find_job, enqueue_found, refuse, rejects_completion,
  update_where, or_else, first_job, heartbeat,
}
use music_online_go.Analysis.Queue.Steps.{
  Rows, Keyed-update_rows, Keyed-append, id-Step, completed, retried, exhausted, cancelled_early,
  superseded, revived, abandoned, claimed, superseded_running, flagged, Step, beaten,
}

-- whoever may complete an attempt holds its lease
held : (job j : Job) → may_complete job j ≡ true → holds job j ≡ true
unfolding may_complete
held job j e = ((&&_iff (holds job j) _).0 e).0

module _ {P : Job → Type 0} {m : ℕ} where
  Keeps-or_else : {A : Type 0} (e : Error) (o : Option A) → Keeps (Rows P m) (or_else e o)
  unfolding or_else
  Keeps-or_else e none = search keeps_rules
  Keeps-or_else e (some a) = search keeps_rules

  Keeps-first_job : (id : ℕ) → Keeps (Rows P m) (first_job id)
  unfolding first_job
  Keeps-first_job id = search keeps_rules

  module _ (closed : (j k : Job) → Step j k → P j → P k) where
    Keeps-update_where :
        (p : Job → Bool) (f : Job → Job)
        → ((j : Job) → P j → p j ≡ true → Step j (f j))
        → Keeps (Rows P m) (update_where p f)
    unfolding update_where
    Keeps-update_where p f step = Keeps-statement _ λ s h. record {
      each = All-update_rows P p f (λ j v e. closed j (f j) (step j v e) v) s.jobs h.each;
      given = h.given;
      keys =
          Keyed-update_rows P p f 0 s.jobs s.next_id (λ j v e. id-Step j (f j) (step j v e)) h.each
            h.keys;
    }

    pub heartbeat-Keeps :
        (now : ℕ) (job : Job) (duration : ℕ) → Keeps (Rows P m) (heartbeat now job duration)
    unfolding heartbeat
    heartbeat-Keeps now job duration =
        search (keeps_rules, Keeps-update_where, Keeps-or_else, beaten)

    claim_found-Keeps :
        (now : ℕ) (owner : String) (duration : ℕ) (found : Option Job)
        → Keeps (Rows P m) (claim_found now owner duration found)
    unfolding claim_found
    claim_found-Keeps now owner duration none = search keeps_rules
    claim_found-Keeps now owner duration (some job) =
        search (keeps_rules, Keeps-update_where, Keeps-or_else, claimed)

    pub claim_next-Keeps :
        (now : ℕ) (owner : String) (duration : ℕ) → Keeps (Rows P m) (claim_next now owner duration)
    unfolding claim_next
    claim_next-Keeps now owner duration = search (keeps_rules, claim_found-Keeps)

    preload_analysis-Keeps : (job : Job) → Keeps (Rows P m) (preload_analysis job)
    unfolding preload_analysis
    preload_analysis-Keeps job = search keeps_rules

    find_job-Keeps : (id : ℕ) → Keeps (Rows P m) (find_job id)
    unfolding find_job
    find_job-Keeps id = search (keeps_rules, Keeps-or_else, preload_analysis-Keeps)

    refuse-Keeps : (job : Job) → Keeps (Rows P m) (refuse job)
    unfolding refuse
    refuse-Keeps job = search (keeps_rules)

    complete_update-Keeps :
        (job : Job)
        → rejects_completion job ≡ false
        → ((j : Job)
            → P j
            → holds job j ≡ true
            → is_pending job.status ≡ true
            → j.attempt < j.max_attempts)
        → Keeps (Rows P m) (update_where (may_complete job) (finished job))
    complete_update-Keeps job r fits =
        Keeps-update_where _ _ (λ j v e. completed job j r e (fits j v (held job j e)))

    pub complete-Keeps :
        (job : Job)
        → ((j : Job)
            → P j
            → holds job j ≡ true
            → is_pending job.status ≡ true
            → j.attempt < j.max_attempts)
        → Keeps (Rows P m) (complete job)
    unfolding complete
    complete-Keeps job fits = elim (Bool-cases (rejects_completion job)) [
      | inl e ↦ rw e (search keeps_rules)
      | inr e ↦ rw e (search (keeps_rules, complete_update-Keeps, refuse-Keeps))
    ]

    flag_running-Keeps : (id : ℕ) → Keeps (Rows P m) (flag_running id)
    unfolding flag_running
    flag_running-Keeps id = search (Keeps-update_where, flagged)

    cancel_in-Keeps : (now id : ℕ) (status : Status) → Keeps (Rows P m) (cancel_in now id status)
    unfolding cancel_in
    cancel_in-Keeps now id pending =
        search (keeps_rules, Keeps-update_where, flag_running-Keeps, cancelled_early)
    cancel_in-Keeps now id running = search flag_running-Keeps
    cancel_in-Keeps now id _ = search keeps_rules

    pub request_cancellation-Keeps : (now id : ℕ) → Keeps (Rows P m) (request_cancellation now id)
    unfolding request_cancellation
    request_cancellation-Keeps now id = search (keeps_rules, find_job-Keeps, cancel_in-Keeps)

    pub recover_expired-Keeps : (now : ℕ) → Keeps (Rows P m) (recover_expired now)
    unfolding recover_expired
    recover_expired-Keeps now =
        search (keeps_rules, Keeps-update_where, abandoned, exhausted, retried)

    pub mark_superseded_audio-Keeps :
        (to_lower trim_space : String → String) (now music_id : ℕ) (current : String)
        → Keeps (Rows P m) (mark_superseded_audio to_lower trim_space now music_id current)
    unfolding mark_superseded_audio
    mark_superseded_audio-Keeps to_lower trim_space now music_id current =
        search (keeps_rules, Keeps-update_where, superseded_running, superseded)

    revive-Keeps : (now : ℕ) (existing : Job) → Keeps (Rows P m) (revive now existing)
    unfolding revive
    revive-Keeps now existing =
        search (keeps_rules, Keeps-update_where, Keeps-or_else, revived) depth 8

    insert-Keeps :
        (now : ℕ) (job : Job)
        → ((s : Store) → m ≤ s.next_id → P (created now s job))
        → Keeps (Rows P m) (insert now job)
    unfolding insert
    insert-Keeps now job new =
        Keeps-bind _ _
          (Keeps-statement _ λ s h. record {
            each = All-append P s.jobs (created now s job) h.each (new s h.given);
            given = omega (arith, h.given);
            keys = Keyed-append 0 s.jobs s.next_id (created now s job) refl h.keys;
          })
          (λ j. Keeps-pure _)

    enqueue_found-Keeps :
        (now : ℕ) (job : Job) (force : Bool) (limit : ℕ) (found : Option Job)
        → ((s : Store) → m ≤ s.next_id → P (created now s job))
        → Keeps (Rows P m) (enqueue_found now job force limit found)
    unfolding enqueue_found
    enqueue_found-Keeps now job force limit (some existing) new = search (keeps_rules, revive-Keeps)
    enqueue_found-Keeps now job force limit none new = search (keeps_rules, insert-Keeps)

    found-Keeps : (e : Error) (found : Result (Option Job)) → Keeps (Rows P m) (stable e found)
    unfolding stable
    found-Keeps e (err _) = search keeps_rules
    found-Keeps e (ok none) = search keeps_rules
    found-Keeps e (ok (some existing)) = search keeps_rules

    resolve-Keeps : (key : String) (r : Result (Job × Bool)) → Keeps (Rows P m) (resolve key r)
    unfolding resolve
    resolve-Keeps key (ok r) = search keeps_rules
    resolve-Keeps key (err queue_full) = search keeps_rules
    resolve-Keeps key (err job_active) = search keeps_rules
    resolve-Keeps key (err e) = Keeps-bind _ _ (search keeps_rules) (λ f. found-Keeps e f)

    pub enqueue-Keeps :
        (now : ℕ) (job : Job) (force : Bool) (limit : ℕ)
        → ((s : Store) → m ≤ s.next_id → P (created now s (with_defaults job)))
        → Keeps (Rows P m) (enqueue now job force limit)
    unfolding enqueue
    enqueue-Keeps now job force limit new =
        search (keeps_rules, enqueue_found-Keeps, resolve-Keeps) depth 9
