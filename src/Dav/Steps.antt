-- ===== src/Dav/Steps.antt =====
-- What the WebDAV code does with the metadata store: it asks, and goes on by the answer.
pub mod Atomic
pub mod Keeping
use tg_files.Common.{Text, Bool, true, false, Option, none, some, Result, ok, err}
use tg_files.Metadata.Sql
use tg_files.Metadata.Sql.{DbError, Session, Sql}
use tg_files.Dav.Paths.{DavError, store, not_found}

-- Code that ends with a value or with an error, its session behind it.
abbrev pub Steps : Type 0 → Type 0 → Type 0
Steps E A = Session → Result E A × Session

pub pure : {E A : Type 0} → A → Steps E A
pure a s = (ok a, s)

pub raise : {E A : Type 0} → E → Steps E A
raise e s = (err e, s)

abbrev pub continue : {E A B : Type 0} → Result E A → (A → Steps E B) → Steps E B
continue (ok a) f s = f a s
continue (err e) f s = (err e, s)

infixl 10 ◌>>=◌ ◌>>◌
unfoldable pub ◌>>=◌ : {E A B : Type 0} → Steps E A → (A → Steps E B) → Steps E B
unfolding pure raise
◌>>=◌ m f s = let (r, s') = m s in continue r f s'

abbrev pub ◌>>◌ : {E A B : Type 0} → Steps E A → Steps E B → Steps E B
m >> n = m >>= λ _. n

-- An error of `m` told by another type.
abbrev pub told : {E F A : Type 0} → (E → F) → Result E A → Result F A
told f (ok a) = ok a
told f (err e) = err (f e)

unfoldable pub telling : {E F A : Type 0} → (E → F) → Steps E A → Steps F A
telling f m s = let (r, s') = m s in (told f r, s')

-- A call of the metadata store.
abbrev pub ask : {A : Type 0} → Sql A → Steps DavError A
ask m = telling store m

-- errors.Is(err, ErrNotFound) || errors.Is(err, metadata.ErrNotFound)
unfoldable pub is_missing : DavError → Bool
is_missing not_found = true
is_missing (store Sql.not_found) = true
is_missing e = false

abbrev pub unless_missing : {A : Type 0} → Bool → DavError → Result DavError (Option A)
unless_missing true e = ok none
unless_missing false e = err e

abbrev pub found : {A : Type 0} → Result DavError A → Result DavError (Option A)
found (ok a) = ok (some a)
found (err e) = unless_missing (is_missing e) e

-- `m` where the caller goes on if there is nothing.
unfoldable pub optional : {A : Type 0} → Steps DavError A → Steps DavError (Option A)
unfolding is_missing
optional m s = let (r, s') = m s in (found r, s')
