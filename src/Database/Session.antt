-- ===== src/Database/Session.antt =====
-- Statements on one connection. The driver may refuse any statement: `faults` says of each
-- statement still to come whether it does, so a theorem holds for every pattern of failures.
pub mod Keeps
pub mod Rollback
pub mod Success
use music_online_go.Prelude.{ℕ, suc, Bool, if◌then◌else◌}
use music_online_go.Database.Errors.{Error, Result, ok, err, driver}

pub record Conn (S : Type 0) : Type 0 where
  pub tables : S
  pub faults : ℕ → Bool

-- What a repository method does: it returns `(T, error)` and leaves a connection.
abbrev pub Db : Type 0 → Type 0 → Type 0
Db S A = Conn S → Result A × Conn S

module _ {S : Type 0} where
  -- The connection after one more statement.
  abbrev pub next : Conn S → Conn S
  next c = record c { faults = λ n. c.faults (suc n) }

  -- One statement: refused with nothing changed, or carried out.
  unfoldable pub statement : {A : Type 0} → (S → A × S) → Db S A
  statement f c =
      if c.faults 0
      then (err driver, next c)
      else (ok (f c.tables).0, record (next c) { tables = (f c.tables).1 })

  -- One statement that reads.
  unfoldable pub query : {A : Type 0} → (S → A) → Db S A
  query f c = if c.faults 0 then (err driver, next c) else (ok (f c.tables), next c)

  unfoldable pub pure : {A : Type 0} → A → Db S A
  pure a c = (ok a, c)

  unfoldable pub raise : {A : Type 0} → Error → Db S A
  raise e c = (err e, c)

  unfoldable pub lift : {A : Type 0} → Result A → Db S A
  lift r c = (r, c)

  -- `if err := m; errors.Is(err, ...)`: the error is a value
  unfoldable pub try : {A : Type 0} → Db S A → Db S (Result A)
  try m c = let (r, c') = m c in (ok r, c')

  abbrev after : {A B : Type 0} → Result A → (A → Db S B) → Db S B
  after (ok a) f c = f a c
  after (err e) f c = (err e, c)

  -- `if err != nil { return err }` between two steps
  -- (to open this is to open `statement`, `query`, `pure`, `raise`, `lift` and `try` too)
  infixl 10 ◌>>=◌ ◌>>◌
  unfoldable pub ◌>>=◌ : {A B : Type 0} → Db S A → (A → Db S B) → Db S B
  unfolding statement query pure raise lift try
  ◌>>=◌ m f c = let (r, c') = m c in after r f c'

  abbrev pub ◌>>◌ : {A B : Type 0} → Db S A → Db S B → Db S B
  m >> n = m >>= λ _. n

  -- The end of `db.Transaction`: an error, or a refused COMMIT, brings the old tables back.
  abbrev pub settle : {A : Type 0} → S → Result A → Conn S → Result A × Conn S
  settle old (err e) c = (err e, record c { tables = old })
  settle old (ok a) c =
      if c.faults 0 then (err driver, record (next c) { tables = old }) else (ok a, next c)

  -- `db.Transaction(func(tx) error {...})`
  unfoldable pub transaction : {A : Type 0} → Db S A → Db S A
  transaction m c =
      if c.faults 0 then (err driver, next c) else let (r, c') = m (next c) in settle c.tables r c'
