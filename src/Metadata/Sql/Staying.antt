-- ===== src/Metadata/Sql/Staying.antt =====
-- Code on a session whose engine refuses nothing leaves such a session.
use tg_files.Common.{
  arith, Bool, true, false, List, [], ◌∷◌, ◌≡◌, refl, Result, ok, err, if◌then◌else◌,
}
use tg_files.Metadata.Types.{Db}
use tg_files.Metadata.Sql.{Sql, DbError, Session, pure, raise, exec, query, ◌>>=◌, step, continue}

pub record IsCalm {A : Type 0} (m : Sql A) : Type 0 where
  pub stays : (s : Session) → s.faults ≡ [] → (m s).1.faults ≡ []

step_calm :
    {A : Type 0} (faults : List Bool) (run : Db → Result DbError A × Db) (db : Db)
    → faults ≡ []
    → (step faults run db).1.faults ≡ []
unfolding step
step_calm [] run db e = refl
step_calm (true ∷ faults) run db e = ground arith
step_calm (false ∷ faults) run db e = ground arith

continue_calm :
    {A B : Type 0} (r : Result DbError B) (f : B → Sql A) (s : Session)
    → s.faults ≡ []
    → ((b : B) → IsCalm (f b))
    → (continue r f s).1.faults ≡ []
continue_calm (ok b) f s e calm_f = (calm_f b).stays s e
continue_calm (err x) f s e calm_f = e

pub IsCalm-pure : {A : Type 0} (a : A) → IsCalm (pure a)
unfolding pure
IsCalm-pure a = record { stays = λ s e. e }

pub IsCalm-raise : {A : Type 0} (x : DbError) → IsCalm (raise {A = A} x)
unfolding raise
IsCalm-raise x = record { stays = λ s e. e }

pub IsCalm-query : {A : Type 0} (read : Db → A) → IsCalm (query read)
unfolding query
IsCalm-query read = record { stays = λ s e. step_calm s.faults _ s.db e }

pub IsCalm-exec : (write : Db → Result DbError Db) → IsCalm (exec write)
unfolding exec
IsCalm-exec write = record { stays = λ s e. step_calm s.faults _ s.db e }

pub IsCalm-if :
    {A : Type 0} (test : Bool) (one other : Sql A)
    → IsCalm one
    → IsCalm other
    → IsCalm (if test then one else other)
IsCalm-if true one other h k = h
IsCalm-if false one other h k = k

pub IsCalm-bind :
    {A B : Type 0} (first : Sql A) (next : A → Sql B)
    → IsCalm first
    → ((a : A) → IsCalm (next a))
    → IsCalm (first >>= next)
unfolding ◌>>=◌
IsCalm-bind first next h k = record {
  stays = λ s e. continue_calm (first s).0 next (first s).1 (h.stays s e) k;
}

pub ruleset calm_rules =
    (IsCalm-bind, IsCalm-if, IsCalm-exec, IsCalm-query, IsCalm-raise, IsCalm-pure)
