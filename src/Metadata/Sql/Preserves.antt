-- ===== src/Metadata/Sql/Preserves.antt =====
-- Invariants of code over the database, one rule for each way to build it.
use tg_files.Common.{Bool, true, false, ◌≡◌, refl, Result, ok, err, if◌then◌else◌, List, [], ◌∷◌, ℕ}
use tg_files.Metadata.Types.{Db}
use tg_files.Metadata.Sql.{
  Sql, DbError, Session, pure, raise, exec, exec_counted, query, transaction, ◌>>=◌, step, settle,
  commit, roll_back, begin, continue,
}

-- `m` keeps `P` of the database, whether it returns or fails
pub record Preserves {A : Type 0} (P : Db → Type 0) (m : Sql A) : Type 0 where
  pub after : (s : Session) → P s.db → P (m s).1.db

settle-Preserves :
    (P : Db → Type 0) (db : Db) (r : Result DbError Db)
    → P db
    → ((db' : Db) → r ≡ ok db' → P db')
    → P (settle db r).1
settle-Preserves P db (ok db') h keep = keep db' refl
settle-Preserves P db (err e) h keep = h

module _ {A : Type 0} (P : Db → Type 0) where
  step-Preserves :
      (faults : List Bool) (run : Db → Result DbError A × Db) (db : Db)
      → P db
      → P (run db).1
      → P (step faults run db).1.db
  unfolding step
  step-Preserves [] run db h h' = h'
  step-Preserves (true ∷ faults) run db h h' = h
  step-Preserves (false ∷ faults) run db h h' = h'

  commit-Preserves : (r : Result DbError A × Session) → P r.1.db → P (commit r).1.db
  unfolding commit
  commit-Preserves (ok a, s) h = step-Preserves s.faults (λ db. (ok a, db)) s.db h h
  commit-Preserves (err e, s) h = h

  roll_back-Preserves :
      (before : Db) (r : Result DbError A × Session)
      → P before
      → P r.1.db
      → P (roll_back before r).1.db
  unfolding roll_back
  roll_back-Preserves before (ok a, s) h h' = h'
  roll_back-Preserves before (err e, s) h h' = h

  begin-Preserves :
      (body : Sql A) (before : Db) (r : Result DbError Unit × Session)
      → Preserves P body
      → P before
      → P r.1.db
      → P (begin body before r).1.db
  unfolding begin
  begin-Preserves body before (ok t, s) kb h h' =
      roll_back-Preserves before (commit (body s)) h (commit-Preserves (body s) (kb.after s h'))
  begin-Preserves body before (err e, s) kb h h' = h'

  continue-Preserves :
      {B : Type 0} (r : Result DbError B) (f : B → Sql A) (s : Session)
      → P s.db
      → ((b : B) → Preserves P (f b))
      → P (continue r f s).1.db
  continue-Preserves (ok b) f s h kf = (kf b).after s h
  continue-Preserves (err e) f s h kf = h

module _ {P : Db → Type 0} where
  pub Preserves-raise : {A : Type 0} (e : DbError) → Preserves P (raise {A = A} e)
  unfolding raise
  Preserves-raise e = record { after = λ _ start. start }

  pub Preserves-pure : {A : Type 0} (value : A) → Preserves P (pure value)
  unfolding pure
  Preserves-pure value = record { after = λ _ start. start }

  pub Preserves-query : {A : Type 0} (read : Db → A) → Preserves P (query read)
  unfolding query
  Preserves-query read = record { after = λ s h. step-Preserves P s.faults _ s.db h h }

  pub Preserves-exec :
      (write : Db → Result DbError Db)
      → ((db db' : Db) → write db ≡ ok db' → P db → P db')
      → Preserves P (exec write)
  unfolding exec
  Preserves-exec write keep = record {
    after = λ s h.
        step-Preserves P s.faults _ s.db h
          (settle-Preserves P s.db (write s.db) h (λ db' e. keep s.db db' e h));
  }

  pub Preserves-exec_counted :
      (write : Db → ℕ × Db) → ((db : Db) → P db → P (write db).1) → Preserves P (exec_counted write)
  unfolding exec_counted
  Preserves-exec_counted write keep = record {
    after = λ s h. step-Preserves P s.faults _ s.db h (keep s.db h);
  }

  pub Preserves-bind :
      {A B : Type 0} (first : Sql A) (next : A → Sql B)
      → Preserves P first
      → ((value : A) → Preserves P (next value))
      → Preserves P (first >>= next)
  unfolding ◌>>=◌
  Preserves-bind first next before later = record {
    after =
        λ s start. continue-Preserves P (first s).0 next (first s).1 (before.after s start) later;
  }

  pub Preserves-if :
      {A : Type 0} (test : Bool) (one other : Sql A)
      → Preserves P one
      → Preserves P other
      → Preserves P (if test then one else other)
  Preserves-if true one other h k = h
  Preserves-if false one other h k = k

  pub Preserves-transaction :
      {A : Type 0} (body : Sql A) → Preserves P body → Preserves P (transaction body)
  unfolding transaction
  Preserves-transaction body kb = record {
    after = λ s h.
        begin-Preserves P body s.db (step s.faults (λ db. (ok tt, db)) s.db) kb h
          (step-Preserves P s.faults _ s.db h h);
  }

pub ruleset preserve_rules = (
  Preserves-transaction, Preserves-bind, Preserves-if, Preserves-query, Preserves-raise,
  Preserves-pure,
)
