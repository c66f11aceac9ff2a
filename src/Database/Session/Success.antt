-- ===== src/Database/Session/Success.antt =====
-- A step of an action that returns a value was not refused.
use music_online_go.Prelude.{false, ℕ, refl, ◌≡◌, arith, Bool-cases, inl, inr}
use music_online_go.Database.Errors.{ok, err, Result}
use music_online_go.Database.Session.{transaction, Conn, Db, next, query, statement, ◌>>=◌}

module _ {S A B : Type 0} where
  pub query-bind :
      (f : S → A) (k : A → Db S B) (c : Conn S) {b : B}
      → ((query f >>= k) c).0 ≡ ok b
      → (query f >>= k) c ≡ k (f c.tables) (next c)
  unfolding ◌>>=◌
  query-bind f k c h = elim (Bool-cases (c.faults 0)) [
    | inl e ↦ absurd (ground arith)
    | inr e ↦ rw e
  ]

  pub statement-bind :
      (f : S → A × S) (k : A → Db S B) (c : Conn S) {b : B}
      → ((statement f >>= k) c).0 ≡ ok b
      → (statement f >>= k) c ≡ k (f c.tables).0 (record (next c) { tables = (f c.tables).1 })
  unfolding ◌>>=◌
  statement-bind f k c h = elim (Bool-cases (c.faults 0)) [
    | inl e ↦ absurd (ground arith)
    | inr e ↦ rw e
  ]

  -- So was all of an action before the rest.
  pub bind_ok :
      (m : Db S A) (k : A → Db S B) (c : Conn S) {b : B}
      → ((m >>= k) c).0 ≡ ok b
      → (a : A) × ((m c).0 ≡ ok a) × ((m >>= k) c ≡ k a (m c).1)
  unfolding ◌>>=◌
  bind_ok m k c {b} h = of (m c).0 refl
    where
      of : (r : Result A) → (m c).0 ≡ r → (a : A) × ((m c).0 ≡ ok a) × ((m >>= k) c ≡ k a (m c).1)
      of (ok a) e = (a, e, rw (e) refl)
      of (err x) e = absurd (ground (arith, h, e))

module _ {S A : Type 0} where
  pub statement_ok :
      (f : S → A × S) (c : Conn S) {a : A}
      → (statement f c).0 ≡ ok a
      → (statement f c).1.tables ≡ (f c.tables).1
  unfolding statement
  statement_ok f c h = elim (Bool-cases (c.faults 0)) [
    | inl e ↦ absurd (ground arith)
    | inr e ↦ rw e refl
  ]

-- A driver that refuses nothing.
abbrev pub IsWorking : {S : Type 0} → Conn S → Type 0
IsWorking c = (n : ℕ) → c.faults n ≡ false

module _ {S A B : Type 0} where
  pub query_works :
      (f : S → A) (k : A → Db S B) (c : Conn S)
      → IsWorking c
      → (query f >>= k) c ≡ k (f c.tables) (next c)
  unfolding ◌>>=◌
  query_works f k c works = rw (works 0) refl

  pub statement_works :
      (f : S → A × S) (k : A → Db S B) (c : Conn S)
      → IsWorking c
      → (statement f >>= k) c ≡ k (f c.tables).0 (record (next c) { tables = (f c.tables).1 })
  unfolding ◌>>=◌
  statement_works f k c works = rw (works 0) refl

module _ {S A : Type 0} where
  pub last_statement_works :
      (f : S → A × S) (c : Conn S)
      → IsWorking c
      → statement f c ≡ (ok (f c.tables).0, record (next c) { tables = (f c.tables).1 })
  unfolding statement
  last_statement_works f c works = rw (works 0) refl

  -- A transaction commits a body that succeeds.
  pub transaction_works :
      (m : Db S A) (c d : Conn S) (a : A)
      → IsWorking c
      → IsWorking d
      → m (next c) ≡ (ok a, d)
      → transaction m c ≡ (ok a, next d)
  unfolding transaction
  transaction_works m c d a works after e = rw (works 0, e, after 0) refl
