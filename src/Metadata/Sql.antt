-- ===== src/Metadata/Sql.antt =====
-- Go code over database/sql: statements that may fail, and transactions.
-- A statement fails when the engine says so: on a busy or broken file, on a cancelled context. The
-- schedule of a session lists, for the statements to come, which ones fail; behind its end none does.
pub mod Calm
pub mod Reads
pub mod Preserves
pub mod Atomic
pub mod Staying
use tg_files.Common.{ℕ, Bool, true, false, List, [], ◌∷◌, Result, ok, err}
use tg_files.Metadata.Types.{Db}

pub data DbError : Type 0 where
  -- ErrNotFound, the errors that the package words itself, a violated PRIMARY KEY, the engine's
  not_found destination_exists same_source destination_bucket_exists constraint engine : DbError

pub record Session : Type 0 where
  pub db : Db
  pub faults : List Bool

abbrev pub Sql : Type 0 → Type 0
Sql A = Session → Result DbError A × Session

pub pure : {A : Type 0} → A → Sql A
pure a s = (ok a, s)

pub raise : {A : Type 0} → DbError → Sql A
raise e s = (err e, s)

abbrev continue : {A B : Type 0} → Result DbError A → (A → Sql B) → Sql B
continue (ok a) f s = f a s
continue (err e) f s = (err e, s)

-- One statement against the engine: the next entry of the schedule decides whether it fails.
step : {A : Type 0} → List Bool → (Db → Result DbError A × Db) → Db → Result DbError A × Session
step [] run db = let (r, db') = run db in (r, record { db = db'; faults = [] })
step (true ∷ faults) run db = (err engine, record { db = db; faults = faults })
step (false ∷ faults) run db = let (r, db') = run db in (r, record { db = db'; faults = faults })

abbrev settle : Db → Result DbError Db → Result DbError Unit × Db
settle db (ok db') = (ok tt, db')
settle db (err e) = (err e, db)

-- A statement that writes, or is refused with nothing written.
pub exec : (Db → Result DbError Db) → Sql Unit
exec write s = step s.faults (λ db. settle db (write db)) s.db

-- A statement that writes and tells how many rows it touched (RowsAffected).
pub exec_counted : (Db → ℕ × Db) → Sql ℕ
exec_counted write s = step s.faults (λ db. let (n, db') = write db in (ok n, db')) s.db

-- A query.
pub query : {A : Type 0} → (Db → A) → Sql A
query read s = step s.faults (λ db. (ok (read db), db)) s.db

infixl 10 ◌>>=◌ ◌>>◌
unfoldable pub ◌>>=◌ : {A B : Type 0} → Sql A → (A → Sql B) → Sql B
unfolding pure raise exec exec_counted query step
◌>>=◌ m f s = let (r, s') = m s in continue r f s'

abbrev pub ◌>>◌ : {A B : Type 0} → Sql A → Sql B → Sql B
m >> n = m >>= λ _. n

-- tx.Commit() behind a body that returned.
commit : {A : Type 0} → Result DbError A × Session → Result DbError A × Session
commit (err e, s) = (err e, s)
commit (ok a, s) = step s.faults (λ db. (ok a, db)) s.db

-- The deferred tx.Rollback(): it does nothing behind a commit, and undoes the body otherwise.
roll_back : {A : Type 0} → Db → Result DbError A × Session → Result DbError A × Session
roll_back before (err e, s) = (err e, record s { db = before })
roll_back before (ok a, s) = (ok a, s)

-- db.BeginTx, the body, and its end.
begin : {A : Type 0} → Sql A → Db → Result DbError Unit × Session → Result DbError A × Session
begin body before (err e, s) = (err e, s)
begin body before (ok _, s) = roll_back before (commit (body s))

unfoldable pub transaction : {A : Type 0} → Sql A → Sql A
unfolding step commit roll_back begin
transaction body s = begin body s.db (step s.faults (λ db. (ok tt, db)) s.db)

-- A session whose statements all succeed, unless the statement itself is refused.
abbrev pub calm : Db → Session
calm db = record { db = db; faults = [] }
