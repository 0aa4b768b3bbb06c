-- ===== src/Effect.antt =====
-- A manager's method: it reads and changes the tables step by step, and what it changed before an
-- error stays changed.
pub mod Inversion
use staging_platform.Result.{Err, Result, ok, err}
use staging_platform.Store.Tables.{Db}

abbrev pub Effect {ℓ} : Type ℓ → Type ℓ
Effect A = Db → Result A × Db

module _ {ℓ} {A : Type ℓ} where
  unfoldable pub return : A → Effect A
  return a db = (ok a, db)

  unfoldable pub fail : Err → Effect A
  fail e db = (err e, db)

  -- a query
  unfoldable pub reads : (Db → Result A) → Effect A
  reads q db = (q db, db)

abbrev or_kept : Db → Result Db → Result (Unit {0}) × Db
or_kept db (ok db') = (ok tt, db')
or_kept db (err e) = (err e, db)

-- a statement, or a transaction
unfoldable pub writes : (Db → Result Db) → Effect (Unit {0})
writes w db = or_kept db (w db)

module _ {A : Type 0} where
  abbrev or_kept_with : Db → Result (Db × A) → Result A × Db
  or_kept_with db (ok (db', a)) = (ok a, db')
  or_kept_with db (err e) = (err e, db)

  -- a transaction with a result
  unfoldable pub transacts : (Db → Result (Db × A)) → Effect A
  transacts w db = or_kept_with db (w db)

module _ {A B : Type 0} where
  abbrev continue : (A → Effect B) → Result A × Db → Result B × Db
  continue f (ok a, db) = f a db
  continue f (err e, db) = (err e, db)

  infixl 5 ◌>>=◌ ◌>>◌
  unfoldable pub ◌>>=◌ : Effect A → (A → Effect B) → Effect B
  unfolding return fail reads writes transacts
  ◌>>=◌ m f db = continue f (m db)

  abbrev pub ◌>>◌ : Effect A → Effect B → Effect B
  m >> k = m >>= λ _. k

module _ {A : Type 0} where
  -- A failure is followed by a cleanup whose own error is dropped, and stays a failure.
  abbrev undone_by : (Db → Result Db) → Result A × Db → Result A × Db
  undone_by cleanup (ok a, db) = (ok a, db)
  undone_by cleanup (err e, db) = (err e, (or_kept db (cleanup db)).1)

  unfoldable pub or_undo : Effect A → (Db → Result Db) → Effect A
  unfolding ◌>>=◌
  or_undo m cleanup db = undone_by cleanup (m db)
