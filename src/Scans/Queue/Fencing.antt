-- ===== src/Scans/Queue/Fencing.antt =====
-- What a worker that lost its lease can do, and what becomes of a requested cancellation.
use mathlib.Core.Path.{subst}
use mathlib.Core.Bool.{false≢true}
use music_online_go.Prelude.{
  ◌≢◌, All-zip, All, if◌then◌else◌, All-map, ◌⊎◌, false, str_eq, suc, ◌∙◌, sym, ap, String, ◌&&◌,
  ==_iff, Option-cases, inr, inl, some, ◌==◌, Bool-cases, arith, ◌≤◌, true, ◌≡◌, Bool, ℕ, refl,
}
use music_online_go.Database.Errors.{driver, scan_lease_lost, err, ok}
use music_online_go.Database.Session.{raise, Conn, ◌>>=◌}
use music_online_go.Database.Table.{
  All-update_rows_if, update_rows-count_rows, count_rows, first_by_lem, All-first_by, first_by,
}
use music_online_go.Database.Table.Counts.{All-count_rows_one, count_rows_zero}
use music_online_go.Scans.Job.{same_status, ScanJob, Library}
use music_online_go.Scans.Queue.{
  holds_scan, check_flush, claim_next_scan, update_scan_job, update_scans, recovered,
  withdrawn_scan, found_scan, flushed, find_scan_job, leased_scan, is_cancellation_requested,
}
use music_online_go.Scans.Queue.Runs.{after, start, claimed, Reach-IsRow, Reach, IsStable, IsRow}
use music_online_go.Scans.Queue.Claims.{is_same, claim_next_scan_ok, IsClaimed}

generation-IsStable : (g : ℕ) → IsStable (λ j. g ≤ j.lease_generation)
unfolding leased_scan flushed withdrawn_scan recovered
generation-IsStable g = record {
  by_lease = λ now duration owner j h. omega (arith, h);
  by_flush = λ job j h. h;
  by_flag = λ j h. h;
  by_withdrawal = λ now j h. h;
  by_recovery = λ now j h. h;
}

flag-IsStable : IsStable (λ j. j.cancel_requested ≡ true)
unfolding leased_scan flushed withdrawn_scan recovered
flag-IsStable = record {
  by_lease = λ now duration owner j h. h;
  by_flush = λ job j h. h;
  by_flag = λ j h. refl;
  by_withdrawal = λ now j h. refl;
  by_recovery = λ now j h. h;
}

found_flag :
    (id : ℕ) (c : Conn Library) (j : ScanJob) (b : Bool)
    → IsRow id (λ j. j.cancel_requested ≡ true) c.tables
    → first_by (λ j. j.id) (λ j. j.id == id) c.tables.jobs ≡ some j
    → j.cancel_requested ≡ true
found_flag id c j b h e =
    All-first_by (λ r. r.id ≡ id → r.cancel_requested ≡ true) (λ r. r.id) (λ r. r.id == id)
      c.tables.jobs h.every e
      ((==_iff j.id id).0 (first_by_lem (λ r. r.id) (λ r. r.id == id) c.tables.jobs e).0)

asked_flag :
    (id : ℕ) (c : Conn Library) {b : Bool}
    → IsRow id (λ j. j.cancel_requested ≡ true) c.tables
    → (is_cancellation_requested id c).0 ≡ ok b
    → b ≡ true
unfolding is_cancellation_requested find_scan_job found_scan ◌>>=◌
asked_flag id c {b} h e = elim (Bool-cases (c.faults 0)) [
  | inl f ↦ absurd (ground (arith, e, f))
  | inr f ↦ elim (Option-cases (first_by (λ j. j.id) (λ j. j.id == id) c.tables.jobs)) [
    | inl o ↦ absurd (ground (arith, e, f, o))
    | inr (j, o) ↦ ground (arith, e, f, o, found_flag id c j b h o)
  ]
]

-- Once the cancellation of a scan job is requested, no sequence of operations takes the request back:
-- in no later state is it answered that there is no such request.
pub cancellation_kept :
    {s : Library} (id : ℕ) (c : Conn Library)
    → IsRow id (λ j. j.cancel_requested ≡ true) s
    → Reach s c.tables
    → (is_cancellation_requested id c).0 ≢ ok false
cancellation_kept id c h r e =
    false≢true (asked_flag id c {b = false} (Reach-IsRow flag-IsStable r h) e)

-- A claim of a job raises its generation.
claim_raises :
    (now duration : ℕ) (owner : String) (id g : ℕ) (c : Conn Library) {k : ScanJob}
    → IsRow id (λ j. g ≤ j.lease_generation) c.tables
    → (claim_next_scan now duration owner c).0 ≡ ok (some k)
    → k.id ≡ id
    → IsRow id (λ j. suc g ≤ j.lease_generation) (claim_next_scan now duration owner c).1.tables
unfolding leased_scan
claim_raises now duration owner id g c {k} h e same = record {
  given_out = kept.given_out;
  once = kept.once;
  every = subst (All (λ j. j.id ≡ id → suc g ≤ j.lease_generation)) (sym claim.changed) (
      All-update_rows_if _ _ (is_same claim.job) (leased_scan now duration owner) each c.tables.jobs
        (All-zip _ _ c.tables.jobs h.every (
          All-count_rows_one (λ j. j.id == id) (λ j. same_status j.status claim.job.status)
            c.tables.jobs h.once
            (subst
              (λ n.
                1
                ≤ count_rows (λ j. j.id == n && same_status j.status claim.job.status)
                    c.tables.jobs)
              (sym claim.same ∙ same) claim.counted))));
}
  where
    claim :
        IsClaimed now duration owner c.tables.jobs
          (claim_next_scan now duration owner c).1.tables.jobs
          k
    claim = claim_next_scan_ok now duration owner c e

    kept : IsRow id (λ j. g ≤ j.lease_generation) (claim_next_scan now duration owner c).1.tables
    kept = Reach-IsRow (generation-IsStable g) (after start (claimed now duration owner)) h

    each :
        (r : ScanJob)
        → (r.id ≡ id → g ≤ r.lease_generation)
          × ((r.id == id) ≡ true → ((r.id == id) && same_status r.status claim.job.status) ≡ true)
        → let s = if is_same claim.job r then leased_scan now duration owner r else r in
          s.id ≡ id → suc g ≤ s.lease_generation
    each r p = elim (Bool-cases (is_same claim.job r)) [
      | inl b ↦ rw (b) (λ q. omega (arith, p.0 q))
      | inr b ↦ rw (b) (λ q. absurd (ground (arith, b, q, p.1, claim.same, same)))
    ]

held_by_other :
    (job r : ScanJob)
    → str_eq job.lease_owner "" ≡ false
    → (r.id ≡ job.id → suc job.lease_generation ≤ r.lease_generation)
    → holds_scan job r ≡ false
unfolding holds_scan
held_by_other job r owner g = elim (Bool-cases (r.id == job.id)) [
  | inl e ↦ ground (arith, e, owner, g ((==_iff r.id job.id).0 e))
  | inr e ↦ ground (arith, e)
]

stale_flush :
    (job : ScanJob) (c : Conn Library)
    → str_eq job.lease_owner "" ≡ false
    → IsRow job.id (λ j. suc job.lease_generation ≤ j.lease_generation) c.tables
    → (((update_scan_job job c).0 ≡ err scan_lease_lost) ⊎ ((update_scan_job job c).0 ≡ err driver))
      × ((update_scan_job job c).1.tables ≡ c.tables)
unfolding update_scan_job update_scans check_flush raise ◌>>=◌
stale_flush job c owner h = elim (Bool-cases (c.faults 0)) [
  | inl e ↦ rw (e) ((inr refl, refl))
  | inr e ↦
      rw (e, none_held, owner)
        ((
          inl refl,
          ap (λ js. record c.tables { jobs = js })
              (update_rows-count_rows (holds_scan job) (flushed job) c.tables.jobs none_held),
        ))
]
  where
    none_held : count_rows (holds_scan job) c.tables.jobs ≡ 0
    none_held =
        count_rows_zero (holds_scan job) c.tables.jobs
          (All-map (λ r g. held_by_other job r owner g) c.tables.jobs h.every)

-- A worker whose scan job was claimed anew can change nothing with its copy: in every later state the
-- flush of a copy with an owner is refused, as a lost lease or by the database, and leaves all tables
-- as they were, if the copy's generation was not above that of the job's row when it was claimed.
pub stale_scan_worker :
    {s : Library} (now duration : ℕ) (owner : String) (job : ScanJob) (c d : Conn Library)
    {k : ScanJob}
    → str_eq job.lease_owner "" ≡ false
    → IsRow job.id (λ j. job.lease_generation ≤ j.lease_generation) s
    → Reach s c.tables
    → (claim_next_scan now duration owner c).0 ≡ ok (some k)
    → k.id ≡ job.id
    → Reach (claim_next_scan now duration owner c).1.tables d.tables
    → (((update_scan_job job d).0 ≡ err scan_lease_lost) ⊎ ((update_scan_job job d).0 ≡ err driver))
      × ((update_scan_job job d).1.tables ≡ d.tables)
stale_scan_worker now duration owner job c d {k} named h r e same r' = stale_flush job d named (
    Reach-IsRow (generation-IsStable (suc job.lease_generation)) r' (
      claim_raises now duration owner job.id job.lease_generation c {k = k}
        (Reach-IsRow (generation-IsStable job.lease_generation) r h) e same))
