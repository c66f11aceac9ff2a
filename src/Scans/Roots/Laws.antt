-- ===== src/Scans/Roots/Laws.antt =====
-- When a root is deleted, and which probe of a root is kept.
use music_online_go.Prelude.{
  All-append, ==_iff, &&_iff, true, All, List, none, ◌||◌, some, Option, ◌∙◌, sym, ap, arith, inr,
  ltb, inl, Bool-cases, ◌≤◌, ◌==◌, ◌≡◌, ℕ,
}
use music_online_go.Database.Errors.{
  err, Error, media_root_in_use, scan_in_progress, media_root_not_found, ok,
}
use music_online_go.Database.Session.{statement, Conn, next, query, raise, ◌>>=◌}
use music_online_go.Database.Session.Success.{statement_ok, statement-bind, query-bind}
use music_online_go.Database.Session.Rollback.{transaction_rollback, transaction_commit}
use music_online_go.Database.Table.{All-update_rows, count_rows, delete_rows}
use music_online_go.Scans.Job.{RootState, Library}
use music_online_go.Scans.Queue.{is_active_for}
use music_online_go.Scans.Roots.{
  is_later, is_replaceable, is_unchecked, upsert_root_state, upserted, drop_idle, drop_root,
  drop_state, delete_root,
}

-- The tables without a root and its state.
abbrev pub without_root : ℕ → Library → Library
without_root id s = record s {
  roots = delete_rows (λ r. r == id) s.roots;
  states = delete_rows (λ r. r.root_id == id) s.states;
}

drop_state_ok :
    (id affected : ℕ) (c : Conn Library)
    → (drop_state id affected c).0 ≡ ok tt
    → (1 ≤ affected)
      × ((drop_state id affected c).1.tables
          ≡ record c.tables { states = delete_rows (λ r. r.root_id == id) c.tables.states })
unfolding drop_state raise
drop_state_ok id affected c h = elim (Bool-cases (affected == 0)) [
  | inl e ↦ absurd (refused (rw (drop_state, e) at h))
  | inr e ↦ (ground (arith, e), rw (drop_state, e) (statement_ok _ c (rw (drop_state, e) at h)))
]
  where
    refused : (raise {S = Library} {A = Unit} media_root_not_found c).0 ≡ ok tt → ⊥
    refused x = cc

drop_root_ok :
    (id count : ℕ) (c : Conn Library)
    → (drop_root id count c).0 ≡ ok tt
    → (count ≡ 0)
      × (1 ≤ count_rows (λ r. r == id) c.tables.roots)
      × ((drop_root id count c).1.tables ≡ without_root id c.tables)
unfolding drop_root raise
drop_root_ok id count c h = elim (Bool-cases (ltb 0 count)) [
  | inl e ↦ absurd (refused (rw (drop_root, e) at h))
  | inr e ↦
      let cut : Library → ℕ × Library = λ s. (
        count_rows (λ r. r == id) s.roots,
        record s { roots = delete_rows (λ r. r == id) s.roots },
      ) in
      let first = statement-bind cut (drop_state id) c (rw (drop_root, e) at h) in
      let (some_row, done) =
        drop_state_ok id _ _ (ap (λ r. r.0) (sym first) ∙ (rw (drop_root, e) at h)) in
      (ground (arith, e), some_row, rw (drop_root, e, first) done)
]
  where
    refused : (raise {S = Library} {A = Unit} media_root_in_use c).0 ≡ ok tt → ⊥
    refused x = cc

drop_idle_ok :
    (id active : ℕ) (c : Conn Library)
    → (drop_idle id active c).0 ≡ ok tt
    → (active ≡ 0)
      × (count_rows (λ f. f.root_id == id) c.tables.files ≡ 0)
      × (1 ≤ count_rows (λ r. r == id) c.tables.roots)
      × ((drop_idle id active c).1.tables ≡ without_root id c.tables)
unfolding drop_idle raise
drop_idle_ok id active c h = elim (Bool-cases (ltb 0 active)) [
  | inl e ↦ absurd (refused (rw (drop_idle, e) at h))
  | inr e ↦
      let look : Library → ℕ = λ s. count_rows (λ f. f.root_id == id) s.files in
      let first = query-bind look (drop_root id) c (rw (drop_idle, e) at h) in
      let (none_left, some_row, done) =
        drop_root_ok id _ _ (ap (λ r. r.0) (sym first) ∙ (rw (drop_idle, e) at h)) in
      (ground (arith, e), none_left, some_row, rw (drop_idle, e, first) done)
]
  where
    refused : (raise {S = Library} {A = Unit} scan_in_progress c).0 ≡ ok tt → ⊥
    refused x = cc

-- A root is deleted only if it is there, no active scan job is about it and no file belongs to it; then
-- the root and its state go and nothing else changes. If the deletion returns an error, nothing changes.
pub delete_root_lem :
    (id : ℕ) (c : Conn Library)
    → ((delete_root id c).0 ≡ ok tt
        → (count_rows (is_active_for id) c.tables.jobs ≡ 0)
          × (count_rows (λ f. f.root_id == id) c.tables.files ≡ 0)
          × (1 ≤ count_rows (λ r. r == id) c.tables.roots)
          × ((delete_root id c).1.tables ≡ without_root id c.tables))
      × ((e : Error) → (delete_root id c).0 ≡ err e → (delete_root id c).1.tables ≡ c.tables)
unfolding delete_root
delete_root_lem id c = (deleted, λ e h. transaction_rollback _ c {e = e} h)
  where
    deleted :
        (delete_root id c).0 ≡ ok tt
        → (count_rows (is_active_for id) c.tables.jobs ≡ 0)
          × (count_rows (λ f. f.root_id == id) c.tables.files ≡ 0)
          × (1 ≤ count_rows (λ r. r == id) c.tables.roots)
          × ((delete_root id c).1.tables ≡ without_root id c.tables)
    deleted h =
        let look : Library → ℕ = λ s. count_rows (is_active_for id) s.jobs in
        let (done, kept) = transaction_commit (query look >>= drop_idle id) c h in
        let read = query-bind look (drop_idle id) (next c) done in
        let (idle, empty, there, gone) = drop_idle_ok id _ _ (ap (λ r. r.0) (sym read) ∙ done) in
        (idle, empty, there, rw (kept, read) gone)

-- A probe at this time or later.
abbrev pub IsSince : ℕ → Option ℕ → Type 0
IsSince t none = ⊥
IsSince t (some u) = t ≤ u

IsSince-later :
    (t : ℕ) (new old : Option ℕ)
    → IsSince t old
    → (is_unchecked old || is_later new old) ≡ true
    → IsSince t new
IsSince-later t new none h e = absurd h
IsSince-later t none (some u) h e = absurd (ground (arith, e))
IsSince-later t (some v) (some u) h e = ground (arith, h, e)

upserted-IsSince :
    (id t : ℕ) (state : RootState) (rows : List RootState)
    → 1 ≤ count_rows (λ r. r.root_id == id) rows
    → All (λ r. r.root_id ≡ id → IsSince t r.last_checked_at) rows
    → All (λ r. r.root_id ≡ id → IsSince t r.last_checked_at) (upserted state rows)
unfolding upserted is_replaceable
upserted-IsSince id t state rows there h =
    elim (Bool-cases (count_rows (λ r. r.root_id == state.root_id) rows == 0)) [
      | inl e ↦ rw (upserted, e) (All-append _ rows state h (λ same. absurd (missing e same)))
      | inr e ↦
          rw (upserted, e) (All-update_rows _ (is_replaceable state) (λ r. state) replaced rows h)
    ]
  where
    missing :
        (count_rows (λ r. r.root_id == state.root_id) rows == 0) ≡ true → state.root_id ≡ id → ⊥
    missing e same = ground (arith, e, there, ap (λ n. count_rows (λ r. r.root_id == n) rows) same)

    replaced :
        (r : RootState)
        → (r.root_id ≡ id → IsSince t r.last_checked_at)
        → is_replaceable state r ≡ true
        → state.root_id ≡ id
        → IsSince t state.last_checked_at
    replaced r g e same =
        let both =
          (&&_iff (r.root_id == state.root_id) (
              is_unchecked r.last_checked_at || is_later state.last_checked_at r.last_checked_at)).0
            e in
        IsSince-later t state.last_checked_at r.last_checked_at
          (g ((==_iff r.root_id state.root_id).0 both.0 ∙ same)) both.1

-- A stored probe of a root is never replaced by an earlier one, whatever is upserted, in whatever
-- order the probes finish.
pub upsert_root_state-IsSince :
    (id t : ℕ) (state : RootState) (c : Conn Library)
    → 1 ≤ count_rows (λ r. r.root_id == id) c.tables.states
    → All (λ r. r.root_id ≡ id → IsSince t r.last_checked_at) c.tables.states
    → All
        (λ r. r.root_id ≡ id → IsSince t r.last_checked_at)
        (upsert_root_state state c).1.tables.states
unfolding upsert_root_state statement
upsert_root_state-IsSince id t state c there h = elim (Bool-cases (c.faults 0)) [
  | inl e ↦ rw (e) h
  | inr e ↦ rw (e) (upserted-IsSince id t state c.tables.states there h)
]
