-- ===== src/Scans/Queue/Claims.antt =====
-- What a claim of a scan job does to the jobs.
use music_online_go.Database.Session.Rollback.{transaction_commit}
use music_online_go.Database.Session.Success.{query-bind, statement-bind}
use music_online_go.Prelude.{
  ◌∙◌, sym, ap, none, List, Option, String, ◌&&◌, ==_iff, inr, inl, some, ◌==◌, Bool-cases, arith,
  ◌≤◌, ◌≡◌, Bool, ℕ, refl,
}
use music_online_go.Database.Errors.{record_not_found, ok}
use music_online_go.Database.Session.{next, query, raise, pure, Conn, ◌>>=◌}
use music_online_go.Database.Table.{delete_rows, update_rows, count_rows, first_by_lem, first_by}
use music_online_go.Scans.Job.{same_status, ScanJob, Library}
use music_online_go.Scans.Queue.{
  is_claimable_scan, claim_next_scan, update_scans, claim_scan, claim_read, claim_updated,
  leased_scan,
}

-- Which rows a claim of a job leases.
abbrev pub is_same : ScanJob → ScanJob → Bool
is_same job j = j.id == job.id && same_status j.status job.status

-- What a claim that took a job has done to the jobs.
pub record IsClaimed (now duration : ℕ) (owner : String) (old new : List ScanJob) (taken : ScanJob)
    : Type 0 where
  pub job : ScanJob
  pub same : taken.id ≡ job.id
  pub counted : 1 ≤ count_rows (is_same job) old
  pub changed : new ≡ update_rows (is_same job) (leased_scan now duration owner) old

claim_read_ok :
    (r : Option ScanJob) (c : Conn Library) {k : ScanJob}
    → (claim_read r c).0 ≡ ok (some k)
    → (r ≡ some k) × ((claim_read r c).1.tables ≡ c.tables)
unfolding claim_read raise pure
claim_read_ok none c h = absurd (refused h)
  where
    refused :
        {k : ScanJob}
        → (raise {S = Library} {A = Option ScanJob} record_not_found c).0 ≡ ok (some k)
        → ⊥
    refused x = ground (arith, x)
claim_read_ok (some j) c h = (ground (arith, h), refl)

claim_updated_ok :
    (job : ScanJob) (affected : ℕ) (c : Conn Library) {k : ScanJob}
    → (claim_updated job affected c).0 ≡ ok (some k)
    → (1 ≤ affected)
      × (k.id ≡ job.id)
      × ((claim_updated job affected c).1.tables.jobs ≡ c.tables.jobs)
unfolding claim_updated pure
claim_updated_ok job affected c {k} h = elim (Bool-cases (affected == 0)) [
  | inl e ↦ absurd (nothing (rw (claim_updated, e) at h))
  | inr e ↦
      let read = λ (_ : Unit).
        query (λ s. first_by (λ j. j.id) (λ j. j.id == job.id) s.jobs) >>= claim_read in
      let cut : Library → Unit × Library =
        λ s. (tt, record s { issues = delete_rows (λ i. i.job_id == job.id) s.issues }) in
      let first = statement-bind cut read c (rw (claim_updated, e) at h) in
      let second =
        query-bind (λ s. first_by (λ j. j.id) (λ j. j.id == job.id) s.jobs) claim_read
          (record (next c) { tables = (cut c.tables).1 })
          (ap (λ r. r.0) (sym first) ∙ (rw (claim_updated, e) at h)) in
      let whole = first ∙ second in
      let (found, kept) =
        claim_read_ok _ (next (record (next c) { tables = (cut c.tables).1 }))
          (ap (λ r. r.0) (sym whole) ∙ (rw (claim_updated, e) at h)) in
      (
        ground (arith, e),
        (==_iff k.id job.id).0
            (first_by_lem (λ j. j.id) (λ j. j.id == job.id) c.tables.jobs found).0,
        rw (claim_updated, e, whole) (ap (λ s. s.jobs) kept),
      )
]
  where
    nothing : (pure {S = Library} {A = Option ScanJob} none c).0 ≡ ok (some k) → ⊥
    nothing x = ground (arith, x)

claim_scan_ok :
    (now duration : ℕ) (owner : String) (r : Option ScanJob) (c : Conn Library) {k : ScanJob}
    → (claim_scan now duration owner r c).0 ≡ ok (some k)
    → IsClaimed now duration owner c.tables.jobs (claim_scan now duration owner r c).1.tables.jobs k
unfolding claim_scan update_scans pure
claim_scan_ok now duration owner none c h = absurd (ground (arith, h))
claim_scan_ok now duration owner (some job) c h =
    let f : Library → ℕ × Library = λ s. (
      count_rows (is_same job) s.jobs,
      record s { jobs = update_rows (is_same job) (leased_scan now duration owner) s.jobs },
    ) in
    let first = statement-bind f (claim_updated job) c h in
    let (some_row, same, kept) = claim_updated_ok job _ _ (ap (λ r. r.0) (sym first) ∙ h) in
    record { job = job; same = same; counted = some_row; changed = rw (first) kept }

-- A claim that took a job has leased the rows that it counted.
pub claim_next_scan_ok :
    (now duration : ℕ) (owner : String) (c : Conn Library) {k : ScanJob}
    → (claim_next_scan now duration owner c).0 ≡ ok (some k)
    → IsClaimed now duration owner c.tables.jobs
        (claim_next_scan now duration owner c).1.tables.jobs
        k
unfolding claim_next_scan
claim_next_scan_ok now duration owner c h =
    let look : Library → Option ScanJob =
      λ s. first_by (λ j. j.id) (is_claimable_scan now) s.jobs in
    let (done, kept) = transaction_commit (query look >>= claim_scan now duration owner) c h in
    let read = query-bind look (claim_scan now duration owner) (next c) done in
    let run =
      claim_scan_ok now duration owner (look c.tables) (next (next c))
        (ap (λ r. r.0) (sym read) ∙ done) in
    rw (kept, read) run
