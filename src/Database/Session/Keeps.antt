-- ===== src/Database/Session/Keeps.antt =====
-- Invariants of the tables, one rule for each way to build an action. They hold whatever the
-- driver refuses, and whether the action returns a value or an error.
use music_online_go.Prelude.{◌≡◌, refl, Bool, true, false, if◌then◌else◌, Bool-cases, inl, inr}
use music_online_go.Database.Errors.{Error, Result, ok, err}
use music_online_go.Database.Session.{
  Conn, Db, next, statement, query, pure, raise, lift, try, ◌>>=◌, settle, transaction,
}

pub record Keeps {S A : Type 0} (P : S → Type 0) (m : Db S A) : Type 0 where
  pub at : (c : Conn S) → P c.tables → P (m c).1.tables

Keeps-settle :
    {S A : Type 0} (P : S → Type 0) (old : S) (r : Result A) (c : Conn S)
    → P old
    → P c.tables
    → P (settle old r c).1.tables
Keeps-settle P old (err e) c h k = h
Keeps-settle P old (ok a) c h k = elim (Bool-cases (c.faults 0)) [ inl e ↦ rw e h | inr e ↦ rw e k ]

module _ {S A : Type 0} {P : S → Type 0} where
  pub Keeps-pure : (a : A) → Keeps P (pure a)
  unfolding pure
  Keeps-pure a = record { at = λ c h. h }

  pub Keeps-raise : (e : Error) → Keeps P (raise {A = A} e)
  unfolding raise
  Keeps-raise e = record { at = λ c h. h }

  pub Keeps-lift : (r : Result A) → Keeps P (lift r)
  unfolding lift
  Keeps-lift r = record { at = λ c h. h }

  pub Keeps-query : (f : S → A) → Keeps P (query f)
  unfolding query
  Keeps-query f = record {
    at = λ c h. elim (Bool-cases (c.faults 0)) [ inl e ↦ rw e h | inr e ↦ rw e h ];
  }

  pub Keeps-statement : (f : S → A × S) → ((s : S) → P s → P (f s).1) → Keeps P (statement f)
  unfolding statement
  Keeps-statement f keep = record {
    at = λ c h. elim (Bool-cases (c.faults 0)) [ inl e ↦ rw e h | inr e ↦ rw e (keep c.tables h) ];
  }

  pub Keeps-try : (m : Db S A) → Keeps P m → Keeps P (try m)
  unfolding try
  Keeps-try m k = record { at = λ c h. k.at c h }

  pub Keeps-if : (b : Bool) (m n : Db S A) → Keeps P m → Keeps P n → Keeps P (if b then m else n)
  Keeps-if true m n km kn = km
  Keeps-if false m n km kn = kn

  -- a transaction ends with the tables of its body, or with those it began with
  pub Keeps-transaction : (m : Db S A) → Keeps P m → Keeps P (transaction m)
  unfolding transaction
  Keeps-transaction m k = record {
    at = λ c h. elim (Bool-cases (c.faults 0)) [
      | inl e ↦ rw e h
      | inr e ↦ rw e (Keeps-settle P c.tables (m (next c)).0 (m (next c)).1 h (k.at (next c) h))
    ];
  }

module _ {S A B : Type 0} {P : S → Type 0} where
  pub Keeps-after :
      (r : Result A) (f : A → Db S B)
      → ((a : A) → r ≡ ok a → Keeps P (f a))
      → Keeps P (lift r >>= f)
  unfolding ◌>>=◌
  Keeps-after (ok a) f k = k a refl
  Keeps-after (err e) f k = Keeps-raise e

  pub Keeps-bind :
      (m : Db S A) (f : A → Db S B) → Keeps P m → ((a : A) → Keeps P (f a)) → Keeps P (m >>= f)
  unfolding ◌>>=◌
  Keeps-bind m f km kf = record {
    at = λ c h. let (r, c') = m c in (Keeps-after r f (λ a _. kf a)).at c' (km.at c h);
  }

-- What holds behind a read or a write, whether the driver refuses it or not.
module _ {S A B : Type 0} (Q : S → Type 0) where
  pub query-at :
      (f : S → A) (k : A → Db S B) (c : Conn S)
      → Q c.tables
      → Q (k (f c.tables) (next c)).1.tables
      → Q ((query f >>= k) c).1.tables
  unfolding ◌>>=◌
  query-at f k c h g = elim (Bool-cases (c.faults 0)) [ inl e ↦ rw e h | inr e ↦ rw e g ]

  pub statement-at :
      (f : S → A × S) (k : A → Db S B) (c : Conn S)
      → Q c.tables
      → Q (k (f c.tables).0 (record (next c) { tables = (f c.tables).1 })).1.tables
      → Q ((statement f >>= k) c).1.tables
  unfolding ◌>>=◌
  statement-at f k c h g = elim (Bool-cases (c.faults 0)) [ inl e ↦ rw e h | inr e ↦ rw e g ]

pub ruleset keeps_rules = (
  Keeps-pure, Keeps-raise, Keeps-lift, Keeps-query, Keeps-try, Keeps-if, Keeps-transaction,
  Keeps-bind,
)
