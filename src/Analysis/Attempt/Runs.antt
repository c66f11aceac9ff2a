-- ===== src/Analysis/Attempt/Runs.antt =====
-- The job table and the copies of its jobs under every run of the service.
use music_online_go.Analysis.Queue.Keys.{first_job_unique}
use music_online_go.Database.Table.{All-first_by}
use music_online_go.Analysis.Attempt.Owed.{
  finish_attempt-Reach, enqueue_audio-Reach, metadata_job-IsFresh,
}
use mathlib.Core.List.{Memᴰ}
use mathlib.Core.Path.{subst}
use music_online_go.Analysis.Queue.Claims.{claim_next_found}
use music_online_go.Analysis.Queue.Moves.{claim_next-Keeps}
use music_online_go.Analysis.Queue.{claim_next}
use music_online_go.Analysis.Queue.Fencing.{Tracks}
use music_online_go.Analysis.Queue.Runs.{Move, Reach-Tracks, Reach-IsSound, Reach, conn}
use music_online_go.Analysis.Attempt.{metadata_job, enqueue_metadata}
use music_online_go.Analysis.Queue.Sound.{Step-IsSound, IsSound}
use music_online_go.Analysis.Queue.Steps.{Keyed, Rows}
use music_online_go.Analysis.Job.{Job, Store}
use music_online_go.Database.Session.{Conn}
use music_online_go.Prelude.{
  none, refl, ◌==◌, All-map, ap, sym, arith, ◌≤◌, [], ◌∷◌, suc, ◌≡◌, ◌<◌, some, All, String, Option,
  List, Bool, ℕ,
}
use music_online_go.Database.Errors.{err, ok, Result}
use music_online_go.Analysis.Attempt.Service.{
  submits_metadata, submits_audio, claims, beats, finishes, cancels, recovers, supersedes, idle,
  then_works, System, taken, Work, Works,
}

-- The table is sound, and each copy that a worker holds stands for an earlier or the present lease.
record IsOwn (w : System) : Type 0 where
  sound : Rows IsSound 0 w.tables
  tracked : All (λ copy. Rows (Tracks copy) (suc copy.id) w.tables) w.held

All-member : (P : Job → Type 0) {copy : Job} {js : List Job} → Memᴰ copy js → All P js → P copy
All-member P (Memᴰ.head e) h = subst P (sym e) h.0
All-member P (Memᴰ.tail m) h = All-member P m h.1

Keyed-le : (lo : ℕ) (js : List Job) (hi : ℕ) → Keyed lo js hi → lo ≤ hi
Keyed-le lo [] hi h = h
Keyed-le lo (j ∷ js) hi h = omega (arith, h.0, Keyed-le (suc j.id) js hi h.1)

Keyed-upper : (lo : ℕ) (js : List Job) (hi : ℕ) → Keyed lo js hi → All (λ j. j.id < hi) js
Keyed-upper lo [] hi h = tt
Keyed-upper lo (j ∷ js) hi h = (Keyed-le (suc j.id) js hi h.1, Keyed-upper (suc j.id) js hi h.1)

-- A claimed job is the row with its primary key.
claimed-Tracks :
    (now : ℕ) (owner : String) (duration : ℕ) (c : Conn Store) {job : Job}
    → Rows IsSound 0 c.tables
    → (claim_next now owner duration c).0 ≡ ok (some job)
    → Rows (Tracks job) (suc job.id) (claim_next now owner duration c).1.tables
claimed-Tracks now owner duration c {job} h e =
    let after = (claim_next-Keeps Step-IsSound now owner duration).at c h in
    let (j, _, claim) = claim_next_found now owner duration c {job = job} e in
    let unique = first_job_unique (λ k. k.id == j.id) 0 _ _ after.keys claim.returned in
    record {
      each = All-map (λ r same. row r same) _ unique;
      given =
          All-first_by (λ r. r.id < _) (λ k. k.id) (λ k. k.id == j.id) _
            (Keyed-upper 0 _ _ after.keys) claim.returned;
      keys = after.keys;
    }
  where
    row : (r : Job) → (r.id ≡ job.id → r ≡ job) → Tracks job r
    row r same = record {
      later = λ e. omega (arith, ap (λ (x : Job). x.lease_generation) (same e));
      same = λ e g running.
          (ap (λ (x : Job). x.attempt) (same e), ap (λ (x : Job). x.max_attempts) (same e));
    }

Reach-IsOwn :
    (w : System) {t : Store} → Reach w.tables t → IsOwn w → IsOwn (record w { tables = t })
Reach-IsOwn w r o = record {
  sound = Reach-IsSound r o.sound;
  tracked = All-map (λ copy h. Reach-Tracks copy r h) w.held o.tracked;
}

claims-IsOwn :
    (now : ℕ) (owner : String) (duration : ℕ) (w : System) (faults : ℕ → Bool)
    (r : Result (Option Job))
    → (claim_next now owner duration (conn w.tables faults)).0 ≡ r
    → IsOwn w
    → IsOwn (record {
      tables = (claim_next now owner duration (conn w.tables faults)).1.tables;
      held = taken r w.held;
    })
claims-IsOwn now owner duration w faults (ok (some job)) e o =
    let run = Reach.next {faults = faults} Reach.here (Move.claims now owner duration) in
    let kept = Reach-IsOwn w run o in
    record {
      sound = kept.sound;
      tracked = (
        claimed-Tracks now owner duration (conn w.tables faults) {job = job} o.sound e,
        kept.tracked,
      );
    }
claims-IsOwn now owner duration w faults (ok none) e o =
    Reach-IsOwn w (Reach.next {faults = faults} Reach.here (Move.claims now owner duration)) o
claims-IsOwn now owner duration w faults (err x) e o =
    Reach-IsOwn w (Reach.next {faults = faults} Reach.here (Move.claims now owner duration)) o

Work-IsOwn : {w : System} {faults : ℕ → Bool} {x : System} → Work w faults x → IsOwn w → IsOwn x
unfolding enqueue_metadata
Work-IsOwn {w} {faults = faults}
      (submits_metadata digest format_uint cfg now rule_version candidate requested_by force) o =
    Reach-IsOwn w
      (Reach.next {faults = faults} Reach.here (
        Move.enqueues now (metadata_job digest format_uint cfg rule_version candidate requested_by)
          force cfg.queue_limit
          (metadata_job-IsFresh digest format_uint cfg rule_version candidate requested_by)))
      o
Work-IsOwn {w} {faults = faults}
      (submits_audio digest format_uint cfg analyzer valid_sha256 now candidate requested_by force)
      o =
    Reach-IsOwn w
      (enqueue_audio-Reach digest format_uint cfg analyzer valid_sha256 now candidate requested_by
        force w.tables faults)
      o
Work-IsOwn {w} {faults = faults} (claims now owner duration) o =
    claims-IsOwn now owner duration w faults _ refl o
Work-IsOwn {w} {faults = faults} (beats now job duration) o =
    Reach-IsOwn w (Reach.next {faults = faults} Reach.here (Move.beats now job duration)) o
Work-IsOwn {w} {faults = faults}
      (finishes truncate_text equal_fold cfg now current copy job outcome m same) o =
    Reach-IsOwn w
      (finish_attempt-Reach truncate_text equal_fold cfg now current copy job outcome w.tables
        faults same (All-member (λ k. Rows (Tracks k) (suc k.id) w.tables) m o.tracked))
      o
Work-IsOwn {w} {faults = faults} (cancels now id) o =
    Reach-IsOwn w (Reach.next {faults = faults} Reach.here (Move.cancels now id)) o
Work-IsOwn {w} {faults = faults} (recovers now) o =
    Reach-IsOwn w (Reach.next {faults = faults} Reach.here (Move.recovers now)) o
Work-IsOwn {w} {faults = faults} (supersedes to_lower trim_space now music_id current) o =
    Reach-IsOwn w
      (Reach.next {faults = faults} Reach.here
        (Move.supersedes to_lower trim_space now music_id current))
      o

Works-IsOwn : {v w : System} → Works v w → IsOwn v → IsOwn w
Works-IsOwn idle o = o
Works-IsOwn (then_works r st) o = Work-IsOwn st (Works-IsOwn r o)

-- From a sound table and workers that hold no job, whatever the service then does in any order,
-- every job stays sound: running exactly with a deadline, never past its attempts, and waiting only
-- with an attempt left. Jobs are submitted as the service builds them, and what a worker finishes
-- is a job that it claimed in this run, whatever it changed in its copy but the key, the lease's
-- generation and the counts of attempts.
pub Works-IsSound :
    {s : Store} {w : System}
    → Works (record { tables = s; held = [] }) w
    → Rows IsSound 0 s
    → Rows IsSound 0 w.tables
Works-IsSound r h = (Works-IsOwn r (record { sound = h; tracked = tt })).sound
