-- ===== src/Analysis/Queue/Steps.antt =====
-- The rows of `music_analysis_jobs` as a state machine: what one UPDATE of the repository may do
-- to one row, its WHERE clause as the premise. A worker hands a job back for another attempt only
-- while attempts are left, which the repository does not check: it is a premise of `completed`.
use music_online_go.Database.Table.{update_rows}
use music_online_go.Prelude.{
  inr, inl, Bool-cases, refl, [], arith, suc, ◌∷◌, ◌++◌, ◌≤◌, All, Bool, List, ℕ, ◌+◌, String, true,
  false, not, ◌&&◌, ◌≡◌, some, none, ◌<◌, ltb, leb, ◌==◌,
}
use music_online_go.Analysis.Job.{
  Store, Job, pending, failed, stale, cancelled, is_pending, is_running, is_active,
}
use music_online_go.Analysis.Queue.{
  lease, reset, holds, may_complete, finished, rejects_completion, has_expired, is_superseded,
  is_supersedable,
}

pub data Step : Job → Job → Type 0 where
  revived :
      (now id : ℕ) (j : Job)
      → (j.id == id && not (is_active j.status)) ≡ true
      → Step j (reset now j)
  claimed :
      (now duration id : ℕ) (owner : String) (j : Job)
      → (j.id == id && (is_pending j.status && not j.cancel_requested)) ≡ true
      → Step j (lease now owner duration j)
  beaten :
      (now duration : ℕ) (job j : Job)
      → holds job j ≡ true
      → Step j (record j { heartbeat_at = some now; lease_expires_at = some (now + duration) })
  completed :
      (job j : Job)
      → rejects_completion job ≡ false
      → may_complete job j ≡ true
      → (is_pending job.status ≡ true → j.attempt < j.max_attempts)
      → Step j (finished job j)
  cancelled_early :
      (now id : ℕ) (j : Job)
      → (j.id == id && is_pending j.status) ≡ true
      → Step j (record j { status = cancelled; cancel_requested = true; finished_at = some now })
  flagged :
      (id : ℕ) (j : Job)
      → (j.id == id && is_running j.status) ≡ true
      → Step j (record j { cancel_requested = true })
  abandoned :
      (now : ℕ) (j : Job)
      → (has_expired now j && j.cancel_requested) ≡ true
      → Step j (record j {
        status = cancelled;
        finished_at = some now;
        lease_owner = "";
        lease_expires_at = none;
      })
  exhausted :
      (now : ℕ) (j : Job) (code summary : String)
      → (has_expired now j && (not j.cancel_requested && leb j.max_attempts j.attempt)) ≡ true
      → Step j (record j {
        status = failed;
        finished_at = some now;
        heartbeat_at = some now;
        error_code = code;
        error_summary = summary;
        lease_owner = "";
        lease_expires_at = none;
      })
  retried :
      (now : ℕ) (j : Job) (code summary : String)
      → (has_expired now j && (not j.cancel_requested && ltb j.attempt j.max_attempts)) ≡ true
      → Step j (record j {
        status = pending;
        available_at = some now;
        heartbeat_at = some now;
        error_code = code;
        error_summary = summary;
        lease_owner = "";
        lease_expires_at = none;
      })
  superseded_running :
      (to_lower trim_space : String → String) (music_id : ℕ) (hash code : String) (j : Job)
      → (is_superseded to_lower trim_space music_id hash j && is_running j.status) ≡ true
      → Step j (record j { cancel_requested = true; error_code = code })
  superseded :
      (to_lower trim_space : String → String) (now music_id : ℕ) (hash code summary : String)
      (j : Job)
      → (is_superseded to_lower trim_space music_id hash j && is_supersedable j.status) ≡ true
      → Step j (record j {
        status = stale;
        finished_at = some now;
        error_code = code;
        error_summary = summary;
      })

pub id-Step : (j k : Job) → Step j k → k.id ≡ j.id
unfolding reset lease finished
id-Step j k (revived now id _ e) = refl
id-Step j k (claimed now duration id owner _ e) = refl
id-Step j k (beaten now duration job _ e) = refl
id-Step j k (completed job _ r e fits) = refl
id-Step j k (cancelled_early now id _ e) = refl
id-Step j k (flagged id _ e) = refl
id-Step j k (abandoned now _ e) = refl
id-Step j k (exhausted now _ code summary e) = refl
id-Step j k (retried now _ code summary e) = refl
id-Step j k (superseded_running to_lower trim_space music_id hash code _ e) = refl
id-Step j k (superseded to_lower trim_space now music_id hash code summary _ e) = refl

-- The primary keys of the rows lie between two bounds and increase.
abbrev pub Keyed : ℕ → List Job → ℕ → Type 0
Keyed lo [] hi = lo ≤ hi
Keyed lo (j ∷ js) hi = (lo ≤ j.id) × Keyed (suc j.id) js hi

-- Every row satisfies `P`, the primary keys are sound, and those below `m` are given out.
pub record Rows (P : Job → Type 0) (m : ℕ) (s : Store) : Type 0 where
  pub each : All P s.jobs
  pub given : m ≤ s.next_id
  pub keys : Keyed 0 s.jobs s.next_id

pub Keyed-update_rows :
    (P : Job → Type 0) (p : Job → Bool) (f : Job → Job) (lo : ℕ) (js : List Job) (hi : ℕ)
    → ((j : Job) → P j → p j ≡ true → (f j).id ≡ j.id)
    → All P js
    → Keyed lo js hi
    → Keyed lo (update_rows p f js) hi
unfolding update_rows
Keyed-update_rows P p f lo [] hi same v h = h
Keyed-update_rows P p f lo (j ∷ js) hi same v h = elim (Bool-cases (p j)) [
  | inl e ↦ rw (e, same j v.0 e) (h.0, Keyed-update_rows P p f (suc j.id) js hi same v.1 h.1)
  | inr e ↦ rw e (h.0, Keyed-update_rows P p f (suc j.id) js hi same v.1 h.1)
]

pub Keyed-append :
    (lo : ℕ) (js : List Job) (hi : ℕ) (j : Job)
    → j.id ≡ hi
    → Keyed lo js hi
    → Keyed lo (js ++ j ∷ []) (suc hi)
Keyed-append lo [] hi j e h = (omega arith, omega arith)
Keyed-append lo (k ∷ js) hi j e h = (h.0, Keyed-append (suc k.id) js hi j e h.1)
