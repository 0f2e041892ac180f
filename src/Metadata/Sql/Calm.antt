-- ===== src/Metadata/Sql/Calm.antt =====
-- Code on a session whose engine refuses nothing, step by step.
use tg_files.Common.{◌≡◌, refl, Result, ok, err, ap}
use tg_files.Metadata.Types.{Db}
use tg_files.Metadata.Sql.{
  Sql, DbError, Session, calm, pure, raise, exec, query, transaction, ◌>>=◌, step, settle, commit,
  roll_back, continue,
}

module _ {A B : Type 0} (m : Sql A) (f : A → Sql B) (s : Session) {s' : Session} where
  pub bind_ok : (a : A) → m s ≡ (ok a, s') → (m >>= f) s ≡ f a s'
  unfolding ◌>>=◌
  bind_ok a e = ap (λ (r : Result DbError A × Session). continue r.0 f r.1) e

  pub bind_err : (e : DbError) → m s ≡ (err e, s') → (m >>= f) s ≡ (err e, s')
  unfolding ◌>>=◌
  bind_err e p = ap (λ (r : Result DbError A × Session). continue r.0 f r.1) p

pub exec_ok :
    (write : Db → Result DbError Db) {db db' : Db}
    → write db ≡ ok db'
    → exec write (calm db) ≡ (ok tt, calm db')
unfolding exec step
exec_ok write {db} e = ap (λ (r : Result DbError Db). ((settle db r).0, calm (settle db r).1)) e

pub query-calm :
    {A : Type 0} (read : Db → A) (db : Db) → query read (calm db) ≡ (ok (read db), calm db)
unfolding query step
query-calm read db = refl

pub pure-calm : {A : Type 0} (a : A) (s : Session) → pure a s ≡ (ok a, s)
unfolding pure
pure-calm a s = refl

pub raise-calm : {A : Type 0} (e : DbError) (s : Session) → raise {A = A} e s ≡ (err e, s)
unfolding raise
raise-calm e s = refl

module _ {A : Type 0} (body : Sql A) (db : Db) where
  pub transaction_ok :
      (a : A) (db' : Db)
      → body (calm db) ≡ (ok a, calm db')
      → transaction body (calm db) ≡ (ok a, calm db')
  unfolding transaction
  transaction_ok a db' e = ap (λ r. roll_back db (commit r)) e

  pub transaction_err :
      (e : DbError) (db' : Db)
      → body (calm db) ≡ (err e, calm db')
      → transaction body (calm db) ≡ (err e, calm db)
  unfolding transaction
  transaction_err e db' p = ap (λ r. roll_back db (commit r)) p
