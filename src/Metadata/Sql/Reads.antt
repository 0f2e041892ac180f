-- ===== src/Metadata/Sql/Reads.antt =====
-- Reads on a session whose engine may refuse statements.
use tg_files.Common.{
  ◌≤◌, ◌<◌, Bool, true, false, List, [], ◌∷◌, ◌≡◌, refl, arith, inl, inr, ◌⊎◌, length, Result, ok,
  ◌∙◌, err,
}
use tg_files.Metadata.Types.{Db}
use tg_files.Metadata.Sql.{DbError, engine, Session, query, pure, step, continue, ◌>>=◌}

-- The tables stay as they are, and the result is the value, or the engine's error if the schedule of
-- the session has a statement to refuse.
abbrev pub Reads : {A : Type 0} → Session → A → Result DbError A × Session → Type 0
Reads s v out =
    (out.1.db ≡ s.db)
    × (length out.1.faults ≤ length s.faults)
    × ((out.0 ≡ ok v) ⊎ ((out.0 ≡ err engine) × (0 < length s.faults)))

step-Reads :
    {A : Type 0} (read : Db → A) (db : Db) (faults : List Bool)
    → Reads
        (record { db = db; faults = faults })
        (read db)
        (step faults (λ db. (ok (read db), db)) db)
unfolding step
step-Reads read db [] = (refl, omega arith, inl refl)
step-Reads read db (true ∷ faults) = (refl, omega arith, inr (refl, omega arith))
step-Reads read db (false ∷ faults) = (refl, omega arith, inl refl)

pub query-Reads : {A : Type 0} (read : Db → A) (s : Session) → Reads s (read s.db) (query read s)
unfolding query
query-Reads read s = step-Reads read s.db s.faults

-- A read behind a read that went well.
pub Reads-behind :
    {A : Type 0} (s s' : Session) (v : A) (out : Result DbError A × Session)
    → s'.db ≡ s.db
    → length s'.faults ≤ length s.faults
    → Reads s' v out
    → Reads s v out
Reads-behind s s' v out same fewer (same', fewer', inl e) = (same' ∙ same, omega arith, inl e)
Reads-behind s s' v out same fewer (same', fewer', inr (e, h)) =
    (same' ∙ same, omega arith, inr (e, omega arith))

Reads-continue :
    {A B : Type 0} (f : A → B) (s : Session) (v : A) (out : Result DbError A × Session)
    → Reads s v out
    → Reads s (f v) (continue out.0 (λ a. pure (f a)) out.1)
unfolding pure
Reads-continue f s v (ok a, s') (same, fewer, inl e) = (same, fewer, inl (cc))
Reads-continue f s v (ok a, s') (same, fewer, inr (e, h)) = cc
Reads-continue f s v (err a, s') (same, fewer, inl e) = cc
Reads-continue f s v (err a, s') (same, fewer, inr (e, h)) = (same, fewer, inr (cc, h))

-- A query whose value is changed.
pub query-map :
    {A B : Type 0} (read : Db → A) (f : A → B) (s : Session)
    → Reads s (f (read s.db)) ((query read >>= λ a. pure (f a)) s)
unfolding ◌>>=◌
query-map read f s = Reads-continue f s (read s.db) (query read s) (query-Reads read s)
