-- ===== src/Database/Session/Rollback.antt =====
-- `db.Transaction` is all or nothing.
use music_online_go.Prelude.{◌≡◌, refl, Bool-cases, inl, inr, arith}
use music_online_go.Database.Errors.{Error, Result, ok, err}
use music_online_go.Database.Session.{Conn, Db, next, settle, transaction}

module _ {S A : Type 0} where
  settle_err :
      (old : S) (r : Result A) (c : Conn S) {e : Error}
      → (settle old r c).0 ≡ err e
      → (settle old r c).1.tables ≡ old
  settle_err old (err x) c h = refl
  settle_err old (ok a) c h = ground arith

  settle_ok :
      (old : S) (r : Result A) (c : Conn S) {a : A}
      → (settle old r c).0 ≡ ok a
      → (r ≡ ok a) × ((settle old r c).1.tables ≡ c.tables)
  settle_ok old (err x) c h = ground arith
  settle_ok old (ok a) c h = ground arith

  -- A transaction that returns an error leaves the tables as they were.
  pub transaction_rollback :
      (m : Db S A) (c : Conn S) {e : Error}
      → (transaction m c).0 ≡ err e
      → (transaction m c).1.tables ≡ c.tables
  unfolding transaction
  transaction_rollback m c {e} h = elim (Bool-cases (c.faults 0)) [
    | inl x ↦ rw x
    | inr x ↦ rw x (settle_err c.tables (m (next c)).0 (m (next c)).1 {e = e} (rw x at h))
  ]

  -- A transaction that returns a value has committed its body.
  pub transaction_commit :
      (m : Db S A) (c : Conn S) {a : A}
      → (transaction m c).0 ≡ ok a
      → ((m (next c)).0 ≡ ok a) × ((transaction m c).1.tables ≡ (m (next c)).1.tables)
  unfolding transaction
  transaction_commit m c {a} h = elim (Bool-cases (c.faults 0)) [
    | inl x ↦ ground arith
    | inr x ↦ rw x (settle_ok c.tables (m (next c)).0 (m (next c)).1 {a = a} (rw x at h))
  ]
