-- ===== src/Analysis/Queue/Runs.antt =====
-- How the server's processes change the job table, in any order and whatever the driver refuses:
-- a submitted job is fresh, and a completion is one that a worker owes.
use music_online_go.Analysis.Queue.Moves.{
  mark_superseded_audio-Keeps, recover_expired-Keeps, request_cancellation-Keeps, heartbeat-Keeps,
  complete-Keeps, claim_next-Keeps, enqueue-Keeps,
}
use music_online_go.Database.Session.{Conn}
use music_online_go.Analysis.Queue.Sound.{Step-IsSound, IsSound}
use music_online_go.Analysis.Queue.Fencing.{Step-IsFenced, Step-Tracks, IsFenced, Tracks}
use music_online_go.Analysis.Queue.Steps.{Step, Rows}
use music_online_go.Prelude.{
  All-zip, none, String, [], arith, ◌⊎◌, ◌<◌, Bool, ◌∷◌, true, suc, ◌≤◌, ◌≡◌, All, ℕ, List,
}
use music_online_go.Analysis.Job.{unset, pending, is_pending, Store, Job}
use music_online_go.Analysis.Queue.{
  mark_superseded_audio, recover_expired, request_cancellation, heartbeat, claim_next, holds,
  complete, enqueue, with_defaults, created,
}

-- A job as the service submits it: `enqueueMetadata` and `enqueueAudio` of
-- internal/service/music_analysis_service.go set no field of an attempt or a lease.
pub record IsFresh (job : Job) : Type 0 where
  pub waiting : (job.status ≡ pending) ⊎ (job.status ≡ unset)
  pub untried : job.attempt ≡ 0
  pub unowned : job.lease_owner ≡ ""
  pub unleased : job.lease_expires_at ≡ none

-- A connection on the tables `s`.
abbrev pub conn : Store → (ℕ → Bool) → Conn Store
conn s faults = record { tables = s; faults = faults }

-- A worker completes the job that it claimed, and schedules a retry only with attempts left.
pub record IsOwed (job : Job) (s : Store) : Type 0 where
  pub tracked : All (Tracks job) s.jobs
  pub spared : is_pending job.status ≡ true → job.attempt < job.max_attempts

pub data Move (s : Store) (faults : ℕ → Bool) : Store → Type 0 where
  enqueues :
      (now : ℕ) (job : Job) (force : Bool) (limit : ℕ)
      → IsFresh job
      → Move s faults (enqueue now job force limit (conn s faults)).1.tables
  claims :
      (now : ℕ) (owner : String) (duration : ℕ)
      → Move s faults (claim_next now owner duration (conn s faults)).1.tables
  beats :
      (now : ℕ) (job : Job) (duration : ℕ)
      → Move s faults (heartbeat now job duration (conn s faults)).1.tables
  completes : (job : Job) → IsOwed job s → Move s faults (complete job (conn s faults)).1.tables
  cancels : (now id : ℕ) → Move s faults (request_cancellation now id (conn s faults)).1.tables
  recovers : (now : ℕ) → Move s faults (recover_expired now (conn s faults)).1.tables
  supersedes :
      (to_lower trim_space : String → String) (now music_id : ℕ) (current : String)
      → Move s faults
          (mark_superseded_audio to_lower trim_space now music_id current (conn s faults)).1.tables

pub data Reach (s : Store) : Store → Type 0 where
  here : Reach s s
  next : {t u : Store} {faults : ℕ → Bool} → Reach s t → Move t faults u → Reach s u

abbrev Both : (Job → Type 0) → (Job → Type 0) → Job → Type 0
Both P Q j = P j × Q j

All-first : (P Q : Job → Type 0) (js : List Job) → All (Both P Q) js → All P js
All-first P Q [] h = tt
All-first P Q (j ∷ js) h = (h.0.0, All-first P Q js h.1)

-- the retry that a worker schedules fits the row that it holds
fits :
    (P : Job → Type 0) (job j : Job)
    → (is_pending job.status ≡ true → job.attempt < job.max_attempts)
    → Both P (Tracks job) j
    → holds job j ≡ true
    → is_pending job.status ≡ true
    → j.attempt < j.max_attempts
fits P job j spared h e p = ground (arith, h.1.same, spared p)

module _ (P : Job → Type 0) (m : ℕ) (closed : (j k : Job) → Step j k → P j → P k)
    (fresh : (now : ℕ) (s : Store) (job : Job)
      → m ≤ s.next_id
      → IsFresh job
      → P (created now s (with_defaults job))) where
  complete-Rows :
      (job : Job) (s : Store) (faults : ℕ → Bool)
      → IsOwed job s
      → Rows P m s
      → Rows P m (complete job (conn s faults)).1.tables
  complete-Rows job s faults owed h =
      let all =
        (complete-Keeps {P = Both P (Tracks job)} {m = m}
            (λ j k st v. (closed j k st v.0, Step-Tracks job j k st v.1)) job
            (λ j v. fits P job j owed.spared v)).at
          (conn s faults)
          (record {
            each = All-zip _ _ s.jobs h.each owed.tracked;
            given = h.given;
            keys = h.keys;
          }) in
      record { each = All-first P (Tracks job) _ all.each; given = all.given; keys = all.keys }

  pub Move-Rows :
      {s : Store} {faults : ℕ → Bool} {t : Store} → Move s faults t → Rows P m s → Rows P m t
  Move-Rows {s} {faults = faults} (enqueues now job force limit new) h =
      (enqueue-Keeps closed now job force limit (λ s g. fresh now s job g new)).at (conn s faults) h
  Move-Rows {s} {faults = faults} (claims now owner duration) h =
      (claim_next-Keeps closed now owner duration).at (conn s faults) h
  Move-Rows {s} {faults = faults} (beats now job duration) h =
      (heartbeat-Keeps closed now job duration).at (conn s faults) h
  Move-Rows {s} {faults = faults} (completes job owed) h = complete-Rows job s faults owed h
  Move-Rows {s} {faults = faults} (cancels now id) h =
      (request_cancellation-Keeps closed now id).at (conn s faults) h
  Move-Rows {s} {faults = faults} (recovers now) h =
      (recover_expired-Keeps closed now).at (conn s faults) h
  Move-Rows {s} {faults = faults} (supersedes to_lower trim_space now music_id current) h =
      (mark_superseded_audio-Keeps closed to_lower trim_space now music_id current).at
        (conn s faults) h

  pub Reach-Rows : {s t : Store} → Reach s t → Rows P m s → Rows P m t
  Reach-Rows here h = h
  Reach-Rows (next r st) h = Move-Rows st (Reach-Rows r h)

created-IsSound :
    (now : ℕ) (s : Store) (job : Job)
    → 0 ≤ s.next_id
    → IsFresh job
    → IsSound (created now s (with_defaults job))
unfolding created with_defaults
created-IsSound now s job g new = ground arith

-- Every such run keeps sound jobs sound.
pub Reach-IsSound : {s t : Store} → Reach s t → Rows IsSound 0 s → Rows IsSound 0 t
Reach-IsSound r h = Reach-Rows IsSound 0 Step-IsSound created-IsSound r h

created-IsFenced :
    (copy : Job) (now : ℕ) (s : Store) (job : Job)
    → suc copy.id ≤ s.next_id
    → IsFresh job
    → IsFenced copy (created now s (with_defaults job))
unfolding created with_defaults
created-IsFenced copy now s job g new = ground arith

created-Tracks :
    (copy : Job) (now : ℕ) (s : Store) (job : Job)
    → suc copy.id ≤ s.next_id
    → IsFresh job
    → Tracks copy (created now s (with_defaults job))
unfolding created with_defaults
created-Tracks copy now s job g new = ground arith

pub Reach-IsFenced :
    (copy : Job) {s t : Store}
    → Reach s t
    → Rows (IsFenced copy) (suc copy.id) s
    → Rows (IsFenced copy) (suc copy.id) t
Reach-IsFenced copy r h =
    Reach-Rows (IsFenced copy) (suc copy.id) (Step-IsFenced copy) (created-IsFenced copy) r h

pub Reach-Tracks :
    (copy : Job) {s t : Store}
    → Reach s t
    → Rows (Tracks copy) (suc copy.id) s
    → Rows (Tracks copy) (suc copy.id) t
Reach-Tracks copy r h =
    Reach-Rows (Tracks copy) (suc copy.id) (Step-Tracks copy) (created-Tracks copy) r h
