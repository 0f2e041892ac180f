-- ===== src/Metadata/Sql/Atomic.antt =====
-- Code that leaves the database as it was when it fails, one rule for each way to build it.
use tg_files.Common.{
  ℕ, zero, suc, ◌==◌, arith, if◌then◌else◌, Bool, true, false, ◌≡◌, refl, Result, ok, err,
  if◌then◌else◌, List, [], ◌∷◌,
}
use tg_files.Metadata.Types.{Db}
use tg_files.Metadata.Sql.{
  exec_counted, Sql, DbError, Session, pure, raise, exec, transaction, ◌>>=◌, step, settle, commit,
  roll_back, begin, continue,
}

-- A failure of `m` has changed no table.
pub record IsAtomic {A : Type 0} (m : Sql A) : Type 0 where
  pub at : (s : Session) (e : DbError) → (m s).0 ≡ err e → (m s).1.db ≡ s.db

settle_atomic :
    (db : Db) (r : Result DbError Db) (e : DbError) → (settle db r).0 ≡ err e → (settle db r).1 ≡ db
settle_atomic db (ok db') e p = cc
settle_atomic db (err _) e p = refl

module _ {A : Type 0} where
  step_atomic :
      (faults : List Bool) (run : Db → Result DbError A × Db) (db : Db) (e : DbError)
      → ((run db).0 ≡ err e → (run db).1 ≡ db)
      → (step faults run db).0 ≡ err e
      → (step faults run db).1.db ≡ db
  unfolding step
  step_atomic [] run db e h p = h p
  step_atomic (true ∷ faults) run db e h p = refl
  step_atomic (false ∷ faults) run db e h p = h p

  roll_back_atomic :
      (before : Db) (r : Result DbError A × Session) (e : DbError)
      → (roll_back before r).0 ≡ err e
      → (roll_back before r).1.db ≡ before
  unfolding roll_back
  roll_back_atomic before (ok a, s) e p = cc
  roll_back_atomic before (err _, s) e p = refl

  begin_atomic :
      (body : Sql A) (before : Db) (r : Result DbError Unit × Session) (e : DbError)
      → ((d : DbError) → r.0 ≡ err d → r.1.db ≡ before)
      → (begin body before r).0 ≡ err e
      → (begin body before r).1.db ≡ before
  unfolding begin
  begin_atomic body before (ok _, s) e h p = roll_back_atomic before (commit (body s)) e p
  begin_atomic body before (err d, s) e h p = h d refl

pub IsAtomic-exec : (write : Db → Result DbError Db) → IsAtomic (exec write)
unfolding exec
IsAtomic-exec write = record {
  at = λ s e p. step_atomic s.faults _ s.db e (settle_atomic s.db (write s.db) e) p;
}

module _ {A : Type 0} where
  pub IsAtomic-raise : (e : DbError) → IsAtomic (raise {A = A} e)
  unfolding raise
  IsAtomic-raise e = record { at = λ s d p. refl }

  pub IsAtomic-transaction : (body : Sql A) → IsAtomic (transaction body)
  unfolding transaction
  IsAtomic-transaction body = record {
    at = λ s e p.
        begin_atomic body s.db (step s.faults (λ db. (ok tt, db)) s.db) e
          (λ d q. step_atomic s.faults (λ db. (ok tt, db)) s.db d (λ r. cc) q) p;
  }

  pub IsAtomic-if :
      (b : Bool) (m n : Sql A) → IsAtomic m → IsAtomic n → IsAtomic (if b then m else n)
  IsAtomic-if true m n hm hn = hm
  IsAtomic-if false m n hm hn = hn

  continue_atomic :
      {B : Type 0} (before : Db) (f : A → B) (r : Result DbError A) (s : Session) (e : DbError)
      → ((d : DbError) → r ≡ err d → s.db ≡ before)
      → (continue r (λ a. pure (f a)) s).0 ≡ err e
      → (continue r (λ a. pure (f a)) s).1.db ≡ before
  unfolding pure
  continue_atomic before f (ok a) s e h p = cc
  continue_atomic before f (err d) s e h p = h d refl

  -- Behind the last failure there is nothing left that can fail.
  pub IsAtomic-bind_pure :
      {B : Type 0} (m : Sql A) (f : A → B) → IsAtomic m → IsAtomic (m >>= λ a. pure (f a))
  unfolding ◌>>=◌
  IsAtomic-bind_pure m f hm = record {
    at = λ s e p. continue_atomic s.db f (m s).0 (m s).1 e (hm.at s) p;
  }

-- A write that is called a failure when it touched no row.
module _ (write : Db → ℕ × Db) (e : DbError)
    (idle : (db : Db) → (write db).0 ≡ 0 → (write db).1 ≡ db) where
  counted_settled :
      (db : Db) (faults : List Bool) (n : ℕ) (after : Db) (d : DbError)
      → (n ≡ 0 → after ≡ db)
      → (continue {A = ℕ}
          (ok n)
          (λ m. if m == 0 then raise e else pure tt)
          (record { db = after; faults = faults })).0
        ≡ err d
      → (continue {A = ℕ}
          (ok n)
          (λ m. if m == 0 then raise e else pure tt)
          (record { db = after; faults = faults })).1.db
        ≡ db
  unfolding raise pure
  counted_settled db faults zero after d h p = h refl
  counted_settled db faults (suc n) after d h p = ground arith

  counted_atomic :
      (faults : List Bool) (db : Db) (d : DbError)
      → ((exec_counted write >>= λ n. if n == 0 then raise e else pure tt)
          (record { db = db; faults = faults })).0
        ≡ err d
      → ((exec_counted write >>= λ n. if n == 0 then raise e else pure tt)
          (record { db = db; faults = faults })).1.db
        ≡ db
  unfolding ◌>>=◌
  counted_atomic [] db d p = counted_settled db [] (write db).0 (write db).1 d (idle db) p
  counted_atomic (true ∷ faults) db d p = refl
  counted_atomic (false ∷ faults) db d p =
      counted_settled db faults (write db).0 (write db).1 d (idle db) p

  pub IsAtomic-counted : IsAtomic (exec_counted write >>= λ n. if n == 0 then raise e else pure tt)
  IsAtomic-counted = record { at = λ s d p. counted_atomic s.faults s.db d p }

pub ruleset atomic_rules =
    (IsAtomic-exec, IsAtomic-raise, IsAtomic-transaction, IsAtomic-if, IsAtomic-bind_pure)
