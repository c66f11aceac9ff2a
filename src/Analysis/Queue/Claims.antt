-- ===== src/Analysis/Queue/Claims.antt =====
-- What `ClaimNext` hands out, and what a lease that was lost can still do.
use music_online_go.Analysis.Queue.Keys.{first_job_unique}
use mathlib.Core.Path.{subst}
use mathlib.Core.List.{Mem, mem-cons_self, mem-cons_of_mem}
use music_online_go.Analysis.Queue.Moves.{claim_next-Keeps}
use music_online_go.Analysis.Queue.Fencing.{Step-Tracks, IsFenced, Tracks}
use music_online_go.Database.Session.Success.{query-bind}
use music_online_go.Database.Session.Rollback.{transaction_commit}
use music_online_go.Database.Errors.{ok}
use music_online_go.Database.Session.{next, Conn, ◌>>=◌}
use music_online_go.Analysis.Queue.{
  is_due, claim_body, is_claimable, claim_next, lease, claim_found,
}
use music_online_go.Analysis.Queue.Steps.{Rows, Keyed}
use music_online_go.Analysis.Job.{is_running, Store, is_pending, Job}
use music_online_go.Database.Table.{
  All-update_rows_if, All-first_by, update_rows, first_by_lem, first_by,
}
use music_online_go.Prelude.{
  ◌+◌, false, ◌↔◌, sym, ◌∙◌, if◌then◌else◌, All-zip, ap, refl, none, Option, String, not, ◌&&◌,
  ==_iff, inr, inl, suc, All-map, Bool-cases, [], ◌∷◌, ◌≤◌, ◌==◌, arith, true, some, ◌≡◌, All, List,
  Bool, ℕ,
}

-- the rows of a claim
abbrev pub claim_where : Job → Job → Bool
claim_where job j = j.id == job.id && (is_pending j.status && not j.cancel_requested)

-- `job` is what a claim makes of `j`, and `after` is what it makes of the tables `before`.
pub record Claims (now : ℕ) (owner : String) (duration : ℕ) (before after : Store) (j job : Job)
    : Type 0 where
  pub tables :
      after
      ≡ record before { jobs = update_rows (claim_where j) (lease now owner duration) before.jobs }
  pub returned : first_by (λ k. k.id) (λ k. k.id == j.id) after.jobs ≡ some job

claim_found_lem :
    (now : ℕ) (owner : String) (duration : ℕ) (found : Option Job) (c : Conn Store) {job : Job}
    → (claim_found now owner duration found c).0 ≡ ok (some job)
    → (j : Job) × (found ≡ some j)
      × Claims now owner duration c.tables (claim_found now owner duration found c).1.tables j job
unfolding claim_found ◌>>=◌
claim_found_lem now owner duration none c h = absurd (ground arith)
claim_found_lem now owner duration (some j) c h =
    (j, refl, record { tables = ground arith; returned = ground arith })

claim_body_lem :
    (now : ℕ) (owner : String) (duration : ℕ) (c : Conn Store) {job : Job}
    → (claim_body now owner duration c).0 ≡ ok (some job)
    → claim_body now owner duration c
      ≡ claim_found now owner duration
          (first_by (λ k. k.id) (is_claimable now) c.tables.jobs)
          (next c)
unfolding claim_body
claim_body_lem now owner duration c {job} h = query-bind _ _ c {b = some job} h

pub claim_next_found :
    (now : ℕ) (owner : String) (duration : ℕ) (c : Conn Store) {job : Job}
    → (claim_next now owner duration c).0 ≡ ok (some job)
    → (j : Job) × (first_by (λ k. k.id) (is_claimable now) c.tables.jobs ≡ some j)
      × Claims now owner duration c.tables (claim_next now owner duration c).1.tables j job
unfolding claim_next
claim_next_found now owner duration c {job} h =
    let (body, committed) = transaction_commit (claim_body now owner duration) c {a = some job} h in
    let same = claim_body_lem now owner duration (next c) {job = job} body in
    let found = first_by (λ k. k.id) (is_claimable now) c.tables.jobs in
    let (j, e, claims) =
      claim_found_lem now owner duration found (next (next c)) {job = job} (rw (← same) body) in
    (j, e, rw (committed, same) claims)

All-Mem : (js : List Job) → All (λ r. Mem r js) js
All-Mem [] = tt
All-Mem (j ∷ js) = (mem-cons_self, All-map (λ r m. mem-cons_of_mem j m) js (All-Mem js))

-- A job that waits, is not cancelled, and may be claimed from some time that has come.
pub record IsClaimable (now : ℕ) (j : Job) : Type 0 where
  pub waiting : is_pending j.status ≡ true
  pub kept : j.cancel_requested ≡ false
  pub due : (t : ℕ) → j.available_at ≡ some t → t ≤ now

is_due_iff :
    (available : Option ℕ) (now : ℕ)
    → (is_due available now ≡ true) ↔ ((t : ℕ) → available ≡ some t → t ≤ now)
is_due_iff none now = (λ e t a. absurd (cc), λ h. refl)
is_due_iff (some t) now = (λ e u a. ground (arith, e, a), λ h. ground (arith, h t refl))

is_claimable_iff : (now : ℕ) (j : Job) → (is_claimable now j ≡ true) ↔ IsClaimable now j
is_claimable_iff now j = (
  λ e. record {
    waiting = ground (arith, e);
    kept = ground (arith, e);
    due = (is_due_iff j.available_at now).0 (ground (arith, e));
  },
  λ h. ground (arith, h.waiting, h.kept, (is_due_iff j.available_at now).1 h.due),
)

-- `job` is `j` under a new lease of `owner`.
pub record IsLeased (now : ℕ) (owner : String) (duration : ℕ) (j job : Job) : Type 0 where
  pub id : job.id ≡ j.id
  pub status : is_running job.status ≡ true
  pub attempt : job.attempt ≡ suc j.attempt
  pub generation : job.lease_generation ≡ suc j.lease_generation
  pub holder : job.lease_owner ≡ owner
  pub deadline : job.lease_expires_at ≡ some (now + duration)

leased_row :
    (now : ℕ) (owner : String) (duration : ℕ) (j r : Job)
    → is_claimable now j ≡ true
    → (r.id ≡ j.id → r ≡ j)
    → (if claim_where j r then lease now owner duration r else r).id ≡ j.id
    → (if claim_where j r then lease now owner duration r else r) ≡ lease now owner duration j
unfolding lease
leased_row now owner duration j r fits unique = elim (Bool-cases (claim_where j r)) [
  | inl e ↦ rw e (λ s. ap (lease now owner duration) (unique s))
  | inr e ↦ rw e (λ s. absurd (ground (arith, ap (claim_where j) (unique s))))
]

lease-IsLeased :
    (now : ℕ) (owner : String) (duration : ℕ) (j : Job)
    → IsLeased now owner duration j (lease now owner duration j)
unfolding lease
lease-IsLeased now owner duration j = record {
  id = refl;
  status = refl;
  attempt = refl;
  generation = refl;
  holder = refl;
  deadline = refl;
}

-- What a claim returns is the row under its new lease.
Claims-IsLeased :
    (now : ℕ) (owner : String) (duration : ℕ) (before after : Store) (j job : Job)
    → Keyed 0 before.jobs before.next_id
    → first_by (λ k. k.id) (is_claimable now) before.jobs ≡ some j
    → Claims now owner duration before after j job
    → IsLeased now owner duration j job
Claims-IsLeased now owner duration before after j job keys found claims =
    let (fits, _) = first_by_lem (λ k. k.id) (is_claimable now) before.jobs found in
    let unique = first_job_unique (is_claimable now) 0 before.jobs before.next_id keys found in
    let rows =
      All-update_rows_if _ (λ r. r.id ≡ j.id → r ≡ lease now owner duration j) (claim_where j)
        (lease now owner duration) (λ r u. leased_row now owner duration j r fits u) before.jobs
        unique in
    let returned = rw claims.tables at claims.returned in
    let (key, _) = first_by_lem (λ k. k.id) (λ k. k.id == j.id) _ returned in
    let same =
      All-first_by (λ r. r.id ≡ j.id → r ≡ lease now owner duration j) (λ k. k.id)
        (λ k. k.id == j.id) _ rows returned ((==_iff job.id j.id).0 key) in
    subst (IsLeased now owner duration j) (sym same) (lease-IsLeased now owner duration j)

-- A successful claim on a table with sound primary keys takes a row of the table: the one with the
-- least key among those that wait, are due and are not cancelled. Only that row changes: it runs
-- under the caller's lease with one attempt more and a new generation, and is what the claim
-- returns.
pub claim_next_lem :
    (now : ℕ) (owner : String) (duration : ℕ) (c : Conn Store) {job : Job}
    → Keyed 0 c.tables.jobs c.tables.next_id
    → (claim_next now owner duration c).0 ≡ ok (some job)
    → (j : Job) × Mem j c.tables.jobs
      × IsClaimable now j
      × All (λ k. IsClaimable now k → j.id ≤ k.id) c.tables.jobs
      × Claims now owner duration c.tables (claim_next now owner duration c).1.tables j job
      × IsLeased now owner duration j job
claim_next_lem now owner duration c {job} keys h =
    let (j, e, claims) = claim_next_found now owner duration c {job = job} h in
    let (fits, least) = first_by_lem (λ k. k.id) (is_claimable now) c.tables.jobs e in
    (
      j,
      All-first_by (λ r. Mem r c.tables.jobs) (λ k. k.id) (is_claimable now) c.tables.jobs
          (All-Mem c.tables.jobs) e,
      (is_claimable_iff now j).0 fits,
      All-map (λ k l f. l ((is_claimable_iff now k).1 f)) c.tables.jobs least,
      claims,
      Claims-IsLeased now owner duration c.tables _ j job keys e claims,
    )

IsFenced-row :
    (copy : Job) (now : ℕ) (owner : String) (duration : ℕ) (j r : Job)
    → is_claimable now j ≡ true
    → j.id ≡ copy.id
    → Tracks copy r × (r.id ≡ j.id → r ≡ j)
    → IsFenced copy (if claim_where j r then lease now owner duration r else r)
unfolding lease
IsFenced-row copy now owner duration j r fits same (tracks, unique) =
    elim (Bool-cases (claim_where j r)) [
      | inl e ↦ rw e (record { later = λ s. ground (arith, tracks.later) })
      | inr e ↦ rw e (record {
        later = λ s. absurd (ground (arith, ap (claim_where j) (unique (s ∙ sym same))));
      })
    ]

-- The holder of an earlier lease on the claimed job is fenced off.
pub claim_next-IsFenced :
    (copy : Job) (m now : ℕ) (owner : String) (duration : ℕ) (c : Conn Store) {job : Job}
    → Rows (Tracks copy) m c.tables
    → (claim_next now owner duration c).0 ≡ ok (some job)
    → job.id ≡ copy.id
    → Rows (IsFenced copy) m (claim_next now owner duration c).1.tables
claim_next-IsFenced copy m now owner duration c {job} h e same =
    let after = (claim_next-Keeps (Step-Tracks copy) now owner duration).at c h in
    let (j, found, claims) = claim_next_found now owner duration c {job = job} e in
    let (fits, _) = first_by_lem (λ k. k.id) (is_claimable now) c.tables.jobs found in
    let (key, _) = first_by_lem (λ k. k.id) (λ k. k.id == j.id) _ claims.returned in
    let mine : j.id ≡ copy.id = omega (arith, (==_iff job.id j.id).0 key) in
    let unique =
      first_job_unique (is_claimable now) 0 c.tables.jobs c.tables.next_id h.keys found in
    record {
      each = rw claims.tables (
          All-update_rows_if _ _ (claim_where j) (lease now owner duration)
            (λ r. IsFenced-row copy now owner duration j r fits mine) c.tables.jobs
            (All-zip _ _ c.tables.jobs h.each unique));
      given = after.given;
      keys = after.keys;
    }
