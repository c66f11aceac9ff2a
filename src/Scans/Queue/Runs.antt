-- ===== src/Scans/Queue/Runs.antt =====
-- The operations on scan jobs, and properties of one job that they keep.
use music_online_go.Prelude.{
  ◌∙◌, All-append, sym, none, suc, false, ap, [], All, true, some, ◌≤◌, arith, ◌∷◌, ◌++◌, ◌==◌, ◌≡◌,
  Option, Bool, String, ◌<◌, List, ℕ, refl,
}
use music_online_go.Database.Errors.{err, ok, Result, Error}
use music_online_go.Database.Session.{Conn, Db}
use music_online_go.Database.Session.Keeps.{
  Keeps-transaction, Keeps-try, Keeps-query, Keeps-pure, Keeps-raise, Keeps-if, Keeps-statement,
  Keeps-bind, Keeps,
}
use music_online_go.Database.Table.{All-update_rows, update_rows, count_rows}
use music_online_go.Database.Table.Counts.{count_rows-append, count_rows-update_rows}
use music_online_go.Scans.Job.{ScanIssue, ScanStatus, ScanJob, Library}
use music_online_go.Scans.Queue.{
  create_scan_issue, recovered, recover_expired_scans, check_flush, withdrawn_scan,
  request_scan_cancellation, flushed, update_scan_job, has_active_scan, insert_scan, leased_scan,
  claim_next_scan, blame, find_scan_job, claim_scan, resolve_scan, claim_read, stored_scan,
  claim_updated, found_scan, cancel_scan_in, flag_running_scan, create_scan_job, update_scans,
  create_unless,
}

-- The operations that change the tables.
pub data IsOperation : (A : Type 0) → Db Library A → Type 1 where
  created : (job : ScanJob) → IsOperation _ (create_scan_job job)
  claimed : (now duration : ℕ) (owner : String) → IsOperation _ (claim_next_scan now duration owner)
  updated : (job : ScanJob) → IsOperation _ (update_scan_job job)
  cancelled_by : (now id : ℕ) → IsOperation _ (request_scan_cancellation now id)
  recovered_at : (now : ℕ) → IsOperation _ (recover_expired_scans now)
  reported : (issue : ScanIssue) → IsOperation _ (create_scan_issue issue)

-- Tables reached by operations of any processes, each with a driver that fails at will.
pub data Reach (s : Library) : Library → Type 1 where
  start : Reach s s
  after :
      {A : Type 0} {m : Db Library A} {c : Conn Library}
      → Reach s c.tables
      → IsOperation A m
      → Reach s (m c).1.tables

-- A property of one row that every SET clause keeps.
pub record IsStable (Q : ScanJob → Type 0) : Type 0 where
  pub by_lease :
      (now duration : ℕ) (owner : String) (j : ScanJob) → Q j → Q (leased_scan now duration owner j)
  pub by_flush : (job j : ScanJob) → Q j → Q (flushed job j)
  pub by_flag : (j : ScanJob) → Q j → Q (record j { cancel_requested = true })
  pub by_withdrawal : (now : ℕ) (j : ScanJob) → Q j → Q (withdrawn_scan now j)
  pub by_recovery : (now : ℕ) (j : ScanJob) → Q j → Q (recovered now j)

-- The id has been given out, to one row at most, and what row has it has the property.
pub record IsRow (id : ℕ) (Q : ScanJob → Type 0) (s : Library) : Type 0 where
  pub given_out : id < s.next_job
  pub once : count_rows (λ j. j.id == id) s.jobs ≤ 1
  pub every : All (λ j. j.id ≡ id → Q j) s.jobs

module _ {id : ℕ} {Q : ScanJob → Type 0} (stable : IsStable Q) where
  update_rows-IsRow :
      (p : ScanJob → Bool) (f : ScanJob → ScanJob) (s : Library)
      → ((j : ScanJob) → (f j).id ≡ j.id)
      → ((j : ScanJob) → Q j → Q (f j))
      → IsRow id Q s
      → IsRow id Q (record s { jobs = update_rows p f s.jobs })
  update_rows-IsRow p f s same keep h = record {
    given_out = h.given_out;
    once = omega (
      arith,
      h.once,
      count_rows-update_rows (λ j. j.id == id) p f s.jobs (λ r. ap (λ n. n == id) (same r)),
    );
    every = All-update_rows _ p f (λ r g _ e. keep r (g (sym (same r) ∙ e))) s.jobs h.every;
  }

  Keeps-update_scans :
      (p : ScanJob → Bool) (f : ScanJob → ScanJob)
      → ((j : ScanJob) → (f j).id ≡ j.id)
      → ((j : ScanJob) → Q j → Q (f j))
      → Keeps (IsRow id Q) (update_scans p f)
  unfolding update_scans
  Keeps-update_scans p f same keep = Keeps-statement _ (λ s h. update_rows-IsRow p f s same keep h)

  insert-IsRow :
      (job : ScanJob) (s : Library)
      → IsRow id Q s
      → IsRow id Q
          (record s { jobs = s.jobs ++ stored_scan s.next_job job ∷ []; next_job = suc s.next_job })
  unfolding stored_scan count_rows
  insert-IsRow job s h = record {
    given_out = omega (arith, h.given_out);
    once = ground (
      arith,
      h.once,
      h.given_out,
      count_rows-append (λ j. j.id == id) s.jobs (stored_scan s.next_job job ∷ []),
    );
    every =
        All-append _ s.jobs (stored_scan s.next_job job) h.every
          (λ e. absurd (omega (arith, e, h.given_out)));
  }

  IsRow-issues :
      (is : List ScanIssue) (n : ℕ) (s : Library)
      → IsRow id Q s
      → IsRow id Q (record s { issues = is; next_issue = n })
  IsRow-issues is n s h = record { given_out = h.given_out; once = h.once; every = h.every }

  Keeps-create_unless : (job : ScanJob) (count : ℕ) → Keeps (IsRow id Q) (create_unless job count)
  unfolding create_unless insert_scan
  Keeps-create_unless job count =
      Keeps-if _ _ _ (Keeps-raise _) (Keeps-statement _ (λ s h. insert-IsRow job s h))

  Keeps-blame : (e : Error) (r : Result Bool) → Keeps (IsRow id Q) (blame e r)
  unfolding blame
  Keeps-blame e (ok true) = Keeps-raise _
  Keeps-blame e (ok false) = Keeps-raise _
  Keeps-blame e (err x) = Keeps-raise _

  Keeps-resolve_scan :
      (root_id : ℕ) (r : Result ScanJob) → Keeps (IsRow id Q) (resolve_scan root_id r)
  unfolding resolve_scan has_active_scan
  Keeps-resolve_scan root_id (ok job) = Keeps-pure _
  Keeps-resolve_scan root_id (err e) =
      Keeps-if _ _ _ (Keeps-raise _)
        (Keeps-bind _ _ (Keeps-try _ (Keeps-query _)) (λ r. Keeps-blame e r))

  Keeps-claim_read : (r : Option ScanJob) → Keeps (IsRow id Q) (claim_read r)
  unfolding claim_read
  Keeps-claim_read none = Keeps-raise _
  Keeps-claim_read (some j) = Keeps-pure _

  Keeps-claim_updated : (job : ScanJob) (n : ℕ) → Keeps (IsRow id Q) (claim_updated job n)
  unfolding claim_updated
  Keeps-claim_updated job n = Keeps-if _ _ _ (Keeps-pure _) (
      Keeps-bind _ _ (Keeps-statement _ (λ s h. IsRow-issues _ _ s h))
        (λ _. Keeps-bind _ _ (Keeps-query _) (λ r. Keeps-claim_read r)))

  Keeps-claim_scan :
      (now duration : ℕ) (owner : String) (r : Option ScanJob)
      → Keeps (IsRow id Q) (claim_scan now duration owner r)
  unfolding claim_scan
  Keeps-claim_scan now duration owner none = Keeps-pure _
  Keeps-claim_scan now duration owner (some job) =
      Keeps-bind _ _
        (Keeps-update_scans _ (leased_scan now duration owner) (λ j. refl)
          (stable.by_lease now duration owner))
        (λ n. Keeps-claim_updated job n)

  Keeps-found_scan : (r : Option ScanJob) → Keeps (IsRow id Q) (found_scan r)
  unfolding found_scan
  Keeps-found_scan none = Keeps-raise _
  Keeps-found_scan (some j) = Keeps-pure _

  Keeps-find_scan_job : (i : ℕ) → Keeps (IsRow id Q) (find_scan_job i)
  unfolding find_scan_job
  Keeps-find_scan_job i = Keeps-bind _ _ (Keeps-query _) (λ r. Keeps-found_scan r)

  Keeps-flag_running_scan : (i : ℕ) → Keeps (IsRow id Q) (flag_running_scan i)
  unfolding flag_running_scan
  Keeps-flag_running_scan i = Keeps-update_scans _ _ (λ j. refl) stable.by_flag

  Keeps-cancel_scan_in :
      (now i : ℕ) (status : ScanStatus) → Keeps (IsRow id Q) (cancel_scan_in now i status)
  unfolding cancel_scan_in
  Keeps-cancel_scan_in now i status =
      let flag = Keeps-bind _ _ (Keeps-flag_running_scan i) (λ _. Keeps-pure tt) in
      Keeps-if _ _ _
        (Keeps-bind _ _
          (Keeps-update_scans _ (withdrawn_scan now) (λ j. refl) (stable.by_withdrawal now))
          (λ n. Keeps-if _ _ _ flag (Keeps-pure tt)))
        (Keeps-if _ _ _ flag (Keeps-pure tt))

  Keeps-operation : {A : Type 0} {m : Db Library A} → IsOperation A m → Keeps (IsRow id Q) m
  unfolding create_scan_job claim_next_scan update_scan_job check_flush request_scan_cancellation
      recover_expired_scans create_scan_issue
  Keeps-operation (created job) =
      Keeps-bind _ _
        (Keeps-try _
          (Keeps-transaction _ (Keeps-bind _ _ (Keeps-query _) (λ n. Keeps-create_unless job n))))
        (λ r. Keeps-resolve_scan job.root_id r)
  Keeps-operation (claimed now duration owner) =
      Keeps-transaction _
        (Keeps-bind _ _ (Keeps-query _) (λ r. Keeps-claim_scan now duration owner r))
  Keeps-operation (updated job) =
      Keeps-bind _ _ (Keeps-update_scans _ (flushed job) (λ j. refl) (stable.by_flush job))
        (λ n. Keeps-if _ _ _ (Keeps-raise _) (Keeps-pure _))
  Keeps-operation (cancelled_by now i) =
      Keeps-bind _ _ (Keeps-find_scan_job i)
        (λ job. Keeps-bind _ _ (Keeps-cancel_scan_in now i job.status) (λ _. Keeps-find_scan_job i))
  Keeps-operation (recovered_at now) =
      Keeps-bind _ _ (Keeps-update_scans _ (recovered now) (λ j. refl) (stable.by_recovery now))
        (λ _. Keeps-pure tt)
  Keeps-operation (reported issue) = Keeps-statement _ (λ s h. IsRow-issues _ _ s h)

  -- What holds of a row holds in all tables that operations reach.
  pub Reach-IsRow : {s t : Library} → Reach s t → IsRow id Q s → IsRow id Q t
  Reach-IsRow start h = h
  Reach-IsRow (after {c = c} r step) h = (Keeps-operation step).at c (Reach-IsRow r h)
