-- ===== src/Effect/Inversion.antt =====
-- What a success of a composed method says of its parts.
use mathlib.Core.Path.{◌≡◌, refl, ap}
use native.Mathlib.Omega.{arith}
use mathlib.Core.Logic.{◌⊎◌, inl, inr}
use staging_platform.Result.{Err, Result, ok, err}
use staging_platform.Store.Tables.{Db}
use staging_platform.Effect.{
  Effect, return, reads, writes, transacts, ◌>>=◌, continue, or_undo, undone_by, or_kept,
  or_kept_with,
}

module _ {A B : Type 0} where
  continue-ok :
      (f : A → Effect B) (p : Result A × Db) {b : B} {db' : Db}
      → continue f p ≡ (ok b, db')
      → (a : A) × (d : Db) × (p ≡ (ok a, d)) × (f a d ≡ (ok b, db'))
  continue-ok f (ok a, d) h = (a, d, refl, h)
  continue-ok f (err e, d) h = absurd (cc (ap (λ (p : Result B × Db). p.0) h))

  pub bind-eq-ok :
      (m : Effect A) (f : A → Effect B) {db db' : Db} {b : B}
      → (m >>= f) db ≡ (ok b, db')
      → (a : A) × (d : Db) × (m db ≡ (ok a, d)) × (f a d ≡ (ok b, db'))
  unfolding ◌>>=◌
  bind-eq-ok m f {db} h = continue-ok f (m db) h

module _ {A : Type 0} where
  pub reads-eq-ok :
      (q : Db → Result A) {db db' : Db} {a : A}
      → reads q db ≡ (ok a, db')
      → (q db ≡ ok a) × (db ≡ db')
  unfolding reads
  reads-eq-ok q h = (ap (λ (p : Result A × Db). p.0) h, ap (λ (p : Result A × Db). p.1) h)

  or_kept_with-ok :
      (db : Db) {db' : Db} {a : A} (r : Result (Db × A))
      → or_kept_with db r ≡ (ok a, db')
      → r ≡ ok (db', a)
  or_kept_with-ok db (ok (d, x)) h = ground arith
  or_kept_with-ok db (err e) h = absurd (cc (ap (λ (p : Result A × Db). p.0) h))

  pub transacts-eq-ok :
      (w : Db → Result (Db × A)) {db db' : Db} {a : A}
      → transacts w db ≡ (ok a, db')
      → w db ≡ ok (db', a)
  unfolding transacts
  transacts-eq-ok w {db} h = or_kept_with-ok db (w db) h

or_kept-ok : (db : Db) {db' : Db} (r : Result Db) → or_kept db r ≡ (ok tt, db') → r ≡ ok db'
or_kept-ok db (ok d) h = ap ok (ap (λ (p : Result (Unit {0}) × Db). p.1) h)
or_kept-ok db (err e) h = absurd (cc (ap (λ (p : Result (Unit {0}) × Db). p.0) h))

pub writes-eq-ok : (w : Db → Result Db) {db db' : Db} → writes w db ≡ (ok tt, db') → w db ≡ ok db'
unfolding writes
writes-eq-ok w {db} h = or_kept-ok db (w db) h

module _ {A : Type 0} where
  pub return-eq-ok :
      (a : A) {b : A} {db db' : Db} → return a db ≡ (ok b, db') → (a ≡ b) × (db ≡ db')
  unfolding return
  return-eq-ok a h = (cc (ap (λ (p : Result A × Db). p.0) h), ap (λ (p : Result A × Db). p.1) h)

module _ {A B : Type 0} where
  -- The other way: a part that succeeds goes on with its value.
  pub bind_of_ok :
      (m : Effect A) (f : A → Effect B) {db d : Db} {a : A}
      → m db ≡ (ok a, d)
      → (m >>= f) db ≡ f a d
  unfolding ◌>>=◌
  bind_of_ok m f h = ap (continue f) h

module _ {A : Type 0} where
  pub reads_of_ok : (q : Db → Result A) (db : Db) {a : A} → q db ≡ ok a → reads q db ≡ (ok a, db)
  unfolding reads
  reads_of_ok q db h = rw h

  pub transacts_of_ok :
      (w : Db → Result (Db × A)) (db : Db) {d : Db} {a : A}
      → w db ≡ ok (d, a)
      → transacts w db ≡ (ok a, d)
  unfolding transacts
  transacts_of_ok w db h = ap (or_kept_with db) h

pub writes_of_ok : (w : Db → Result Db) (db : Db) {d : Db} → w db ≡ ok d → writes w db ≡ (ok tt, d)
unfolding writes
writes_of_ok w db h = ap (or_kept db) h

module _ {A B : Type 0} where
  continue-err :
      (f : A → Effect B) (p : Result A × Db) {e : Err} {db' : Db}
      → continue f p ≡ (err e, db')
      → (p ≡ (err e, db')) ⊎ ((a : A) × (d : Db) × (p ≡ (ok a, d)) × (f a d ≡ (err e, db')))
  continue-err f (ok a, d) h = inr (a, d, refl, h)
  continue-err f (err x, d) h = inl (ground arith)

  -- A failure stops at the first part or in the rest.
  pub bind-eq-err :
      (m : Effect A) (f : A → Effect B) {db db' : Db} {e : Err}
      → (m >>= f) db ≡ (err e, db')
      → (m db ≡ (err e, db')) ⊎ ((a : A) × (d : Db) × (m db ≡ (ok a, d)) × (f a d ≡ (err e, db')))
  unfolding ◌>>=◌
  bind-eq-err m f {db} h = continue-err f (m db) h

module _ {A : Type 0} where
  -- A query, a statement or a transaction that fails changes nothing.
  pub reads-eq-err :
      (q : Db → Result A) {db db' : Db} {e : Err} → reads q db ≡ (err e, db') → db ≡ db'
  unfolding reads
  reads-eq-err q h = ap (λ (p : Result A × Db). p.1) h

  or_kept_with-err :
      (db : Db) (r : Result (Db × A)) {db' : Db} {e : Err}
      → or_kept_with db r ≡ (err e, db')
      → db ≡ db'
  or_kept_with-err db (ok (d, a)) h = ground arith
  or_kept_with-err db (err x) h = ap (λ (p : Result A × Db). p.1) h

  pub transacts-eq-err :
      (w : Db → Result (Db × A)) {db db' : Db} {e : Err} → transacts w db ≡ (err e, db') → db ≡ db'
  unfolding transacts
  transacts-eq-err w {db} h = or_kept_with-err db (w db) h

  pub not-return-err : (a : A) (db : Db) {db' : Db} {e : Err} → return a db ≡ (err e, db') → ⊥
  unfolding return
  not-return-err a db h = ground arith

or_kept-err :
    (db : Db) (r : Result Db) {db' : Db} {e : Err} → or_kept db r ≡ (err e, db') → db ≡ db'
or_kept-err db (ok d) h = ground arith
or_kept-err db (err x) h = ap (λ (p : Result (Unit {0}) × Db). p.1) h

pub writes-eq-err :
    (w : Db → Result Db) {db db' : Db} {e : Err} → writes w db ≡ (err e, db') → db ≡ db'
unfolding writes
writes-eq-err w {db} h = or_kept-err db (w db) h

module _ {A : Type 0} where
  undone_by-eq-ok :
      (cleanup : Db → Result Db) (p : Result A × Db) {a : A} {db' : Db}
      → undone_by cleanup p ≡ (ok a, db')
      → p ≡ (ok a, db')
  undone_by-eq-ok cleanup (ok x, d) h = h
  undone_by-eq-ok cleanup (err e, d) h = absurd (cc (ap (λ (p : Result A × Db). p.0) h))

  -- A cleanup does not make a success.
  pub or_undo-eq-ok :
      (m : Effect A) (cleanup : Db → Result Db) (db : Db) {a : A} {db' : Db}
      → or_undo m cleanup db ≡ (ok a, db')
      → m db ≡ (ok a, db')
  unfolding or_undo
  or_undo-eq-ok m cleanup db h = undone_by-eq-ok cleanup (m db) h
