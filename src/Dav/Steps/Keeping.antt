-- ===== src/Dav/Steps/Keeping.antt =====
-- Invariants of the tables under WebDAV code, one rule for each way to build it.
use tg_files.Common.{Bool, true, false, sym, subst, ◌≡◌, refl, Result, ok, err, if◌then◌else◌}
use tg_files.Metadata.Types.{Db}
use tg_files.Metadata.Sql.{Session, Sql, DbError}
use tg_files.Metadata.Sql.Preserves.{Preserves}
use tg_files.Dav.Steps.{Steps, raise, continue, telling, ◌>>=◌, pure}
use tg_files.Dav.Steps.Atomic.{IsSteady}

-- `m` keeps `P` of the tables, whether it returns or fails.
pub record Keeps {E A : Type 0} (P : Db → Type 0) (m : Steps E A) : Type 0 where
  pub after : (s : Session) → P s.db → P (m s).1.db

module _ {P : Db → Type 0} {E A : Type 0} where
  pub Keeps-steady : (m : Steps E A) → IsSteady m → Keeps P m
  Keeps-steady m h = record { after = λ s start. subst P (sym (h.at s)) start }

  pub Keeps-pure : (a : A) → Keeps P (pure {E = E} a)
  unfolding pure
  Keeps-pure a = record { after = λ s start. start }

  pub Keeps-raise : (e : E) → Keeps P (raise {A = A} e)
  unfolding raise
  Keeps-raise e = record { after = λ s start. start }

  pub Keeps-if : (b : Bool) (m n : Steps E A) → Keeps P m → Keeps P n → Keeps P (if b then m else n)
  Keeps-if true m n hm hn = hm
  Keeps-if false m n hm hn = hn

  -- Where it matters which way the test went.
  pub Keeps-cases :
      (b : Bool) (m n : Steps E A)
      → (b ≡ true → Keeps P m)
      → (b ≡ false → Keeps P n)
      → Keeps P (if b then m else n)
  Keeps-cases true m n hm hn = hm refl
  Keeps-cases false m n hm hn = hn refl

  continue-Keeps :
      {B : Type 0} (f : B → Steps E A) (r : Result E B) (s : Session)
      → ((b : B) → Keeps P (f b))
      → P s.db
      → P (continue r f s).1.db
  continue-Keeps f (ok b) s h start = (h b).after s start
  continue-Keeps f (err e) s h start = start

  pub Keeps-bind :
      {B : Type 0} (m : Steps E B) (f : B → Steps E A)
      → IsSteady m
      → ((b : B) → Keeps P (f b))
      → Keeps P (m >>= f)
  unfolding ◌>>=◌
  Keeps-bind m f hm hf = record {
    after = λ s start. continue-Keeps f (m s).0 (m s).1 hf (subst P (sym (hm.at s)) start);
  }

  pub Keeps-then :
      {B : Type 0} (m : Steps E B) (f : B → Steps E A)
      → Keeps P m
      → ((b : B) → Keeps P (f b))
      → Keeps P (m >>= f)
  unfolding ◌>>=◌
  Keeps-then m f hm hf = record {
    after = λ s start. continue-Keeps f (m s).0 (m s).1 hf (hm.after s start);
  }

  pub Keeps-telling : {F : Type 0} (f : E → F) (m : Steps E A) → Keeps P m → Keeps P (telling f m)
  unfolding telling
  Keeps-telling f m hm = record { after = λ s start. hm.after s start }

-- A method of the metadata store.
pub Keeps-store :
    {P : Db → Type 0} {A : Type 0} (m : Sql A) → Preserves P m → Keeps {E = DbError} P m
Keeps-store m h = record { after = h.after }

pub ruleset keep_rules = (Keeps-pure, Keeps-raise, Keeps-if, Keeps-bind, Keeps-telling, Keeps-store)
