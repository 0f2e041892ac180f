-- ===== src/Dav/Steps/Atomic.antt =====
-- Code that leaves the tables as they were when it fails, one rule for each way to build it.
use tg_files.Common.{Bool, true, false, ◌≡◌, refl, ◌∙◌, Result, ok, err, if◌then◌else◌}
use tg_files.Metadata.Types.{Db}
use tg_files.Metadata.Sql.{Session, Sql}
use tg_files.Metadata.Sql.Atomic.{IsAtomic}
use tg_files.Metadata.Sql.Preserves.{Preserves}
use tg_files.Dav.Paths.{DavError}
use tg_files.Dav.Steps.{Steps, pure, raise, continue, telling, told, optional, ◌>>=◌}

-- `m` changes no table.
pub record IsSteady {E A : Type 0} (m : Steps E A) : Type 0 where
  pub at : (s : Session) → (m s).1.db ≡ s.db

-- A failure of `m` has changed no table.
pub record IsCautious {E A : Type 0} (m : Steps E A) : Type 0 where
  pub at : (s : Session) (e : E) → (m s).0 ≡ err e → (m s).1.db ≡ s.db

module _ {E A : Type 0} where
  pub IsSteady-pure : (a : A) → IsSteady (pure {E = E} a)
  unfolding pure
  IsSteady-pure a = record { at = λ s. refl }

  pub IsSteady-raise : (e : E) → IsSteady (raise {A = A} e)
  unfolding raise
  IsSteady-raise e = record { at = λ s. refl }

  pub IsCautious-steady : (m : Steps E A) → IsSteady m → IsCautious m
  IsCautious-steady m h = record { at = λ s e p. h.at s }

  pub IsCautious-raise : (e : E) → IsCautious (raise {A = A} e)
  IsCautious-raise e = IsCautious-steady (raise e) (IsSteady-raise e)

  pub IsCautious-pure : (a : A) → IsCautious (pure {E = E} a)
  IsCautious-pure a = IsCautious-steady (pure a) (IsSteady-pure a)

  pub IsSteady-if :
      (b : Bool) (m n : Steps E A) → IsSteady m → IsSteady n → IsSteady (if b then m else n)
  IsSteady-if true m n hm hn = hm
  IsSteady-if false m n hm hn = hn

  pub IsCautious-if :
      (b : Bool) (m n : Steps E A) → IsCautious m → IsCautious n → IsCautious (if b then m else n)
  IsCautious-if true m n hm hn = hm
  IsCautious-if false m n hm hn = hn

module _ {E A B : Type 0} where
  continue-steady :
      (f : A → Steps E B) (r : Result E A) (s : Session)
      → ((a : A) → IsSteady (f a))
      → (continue r f s).1.db ≡ s.db
  continue-steady f (ok a) s h = (h a).at s
  continue-steady f (err e) s h = refl

  pub IsSteady-bind :
      (m : Steps E A) (f : A → Steps E B)
      → IsSteady m
      → ((a : A) → IsSteady (f a))
      → IsSteady (m >>= f)
  unfolding ◌>>=◌
  IsSteady-bind m f hm hf = record { at = λ s. continue-steady f (m s).0 (m s).1 hf ∙ hm.at s }

  continue-cautious :
      (f : A → Steps E B) (r : Result E A) (s : Session) (e : E)
      → ((a : A) → IsCautious (f a))
      → (continue r f s).0 ≡ err e
      → (continue r f s).1.db ≡ s.db
  continue-cautious f (ok a) s e h p = (h a).at s e p
  continue-cautious f (err _) s e h p = refl

  pub IsCautious-bind :
      (m : Steps E A) (f : A → Steps E B)
      → IsSteady m
      → ((a : A) → IsCautious (f a))
      → IsCautious (m >>= f)
  unfolding ◌>>=◌
  IsCautious-bind m f hm hf = record {
    at = λ s e p. continue-cautious f (m s).0 (m s).1 e hf p ∙ hm.at s;
  }

module _ {E F A : Type 0} (f : E → F) where
  pub IsSteady-telling : (m : Steps E A) → IsSteady m → IsSteady (telling f m)
  unfolding telling
  IsSteady-telling m hm = record { at = λ s. hm.at s }

  told_err :
      (r : Result E A) (s : Session) (before : Db) (e : F)
      → ((d : E) → r ≡ err d → s.db ≡ before)
      → told f r ≡ err e
      → s.db ≡ before
  told_err (ok a) s before e h p = cc
  told_err (err d) s before e h p = h d refl

  pub IsCautious-telling : (m : Steps E A) → IsCautious m → IsCautious (telling f m)
  unfolding telling
  IsCautious-telling m hm = record { at = λ s e p. told_err (m s).0 (m s).1 s.db e (hm.at s) p }

pub IsSteady-optional : {A : Type 0} (m : Steps DavError A) → IsSteady m → IsSteady (optional m)
unfolding optional
IsSteady-optional m hm = record { at = λ s. hm.at s }

-- Behind the last failure there is nothing left that can fail.
continue-pure_cautious :
    {E A B : Type 0} (f : A → B) (r : Result E A) (s : Session) (before : Db) (e : E)
    → ((d : E) → r ≡ err d → s.db ≡ before)
    → (continue {E = E} r (λ a. pure (f a)) s).0 ≡ err e
    → (continue {E = E} r (λ a. pure (f a)) s).1.db ≡ before
unfolding pure
continue-pure_cautious f (ok a) s before e h p = cc
continue-pure_cautious f (err d) s before e h p = h d refl

pub IsCautious-bind_pure :
    {E A B : Type 0} (m : Steps E A) (f : A → B) → IsCautious m → IsCautious (m >>= λ a. pure (f a))
unfolding ◌>>=◌
IsCautious-bind_pure m f hm = record {
  at = λ s e p. continue-pure_cautious f (m s).0 (m s).1 s.db e (hm.at s) p;
}

-- A method of the metadata store that reads.
pub IsSteady-reading :
    {A : Type 0} (m : Sql A) → ((db : Db) → Preserves (λ after. after ≡ db) m) → IsSteady m
IsSteady-reading m h = record { at = λ s. (h s.db).after s refl }

-- A method of the metadata store that is atomic.
pub IsCautious-store : {A : Type 0} (m : Sql A) → IsAtomic m → IsCautious m
IsCautious-store m h = record { at = h.at }

pub ruleset steady_rules =
    (IsSteady-pure, IsSteady-raise, IsSteady-if, IsSteady-bind, IsSteady-telling, IsSteady-optional)

pub ruleset cautious_rules =
    (IsCautious-pure, IsCautious-raise, IsCautious-if, IsCautious-bind, IsCautious-telling)
