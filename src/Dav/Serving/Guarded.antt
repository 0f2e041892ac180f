-- ===== src/Dav/Serving/Guarded.antt =====
-- Which requests do not reach webdav.Handler.
use tg_files.Common.{
  All, ◌⊎◌, text_eq_iff, false≢true, Text, codes, Bool, true, false, not, ◌&&◌, List, [], ◌∷◌,
  Option, none, some, ◌≡◌, refl, ap, sym, subst, ok, ◌==◌, Bool-cases, inl, inr, ℕ, if◌then◌else◌,
  text_eq, if_true, if_false, ◌∙◌, codes,
}
use tg_files.Golang.Strings.{has_prefix}
use tg_files.Metadata.Types.{Db, Bucket, BucketRow, Time}
use tg_files.Metadata.Sql
use tg_files.Metadata.Sql.{Session, DbError}
use tg_files.Metadata.Table.{find}
use tg_files.Metadata.Statements.{bucket_key}
use tg_files.Metadata.Buckets.{get_bucket, bucket_of_row}
use tg_files.Dav.Paths.{at, parse_path}
use tg_files.Dav.Steps.{Steps, raise, telling, ◌>>=◌}
use tg_files.Dav.FileSystem.{of_result}
use tg_files.Dav.CopyMove.{path_of}
use tg_files.Dav.CopyMove.Keeping.{path_of_ok}
use tg_files.Dav.Serving.{
  DavRequest, Handler, check_basic_auth, below_prefix, bucket_error, serve_bucket, serve_parsed,
  serve_http, with_depth, credential_of, is_secret, handle_options, is_infinity,
}

abbrev row_is_enabled : Option BucketRow → Bool
row_is_enabled none = false
row_is_enabled (some row) = not (row.enabled == 0)

-- Two ways that part behind the same four tests.
guards_same :
    (b1 b2 b3 b4 : Bool) (m1 m2 m3 m4 n k : Steps ℕ ℕ) (s : Session)
    → (b2 ≡ false → n s ≡ k s)
    → (if b1 then m1 else if b2 then m2 else if b3 then m3 else if b4 then m4 else n) s
      ≡ (if b1 then m1 else if b2 then m2 else if b3 then m3 else if b4 then m4 else k) s
guards_same true b2 b3 b4 m1 m2 m3 m4 n k s h = refl
guards_same false true b3 b4 m1 m2 m3 m4 n k s h = refl
guards_same false false true b4 m1 m2 m3 m4 n k s h = refl
guards_same false false false true m1 m2 m3 m4 n k s h = refl
guards_same false false false false m1 m2 m3 m4 n k s h = h refl

-- Whether the table has the bucket, and as one that is enabled.
abbrev pub is_enabled : Text → Db → Bool
is_enabled bucket db = row_is_enabled (find bucket_key text_eq bucket db.buckets)

-- Code behind GetBucket sees no enabled bucket where there is none.
get_bucket-disabled :
    (f g : Bucket → Steps ℕ ℕ) (bucket : Text) (db : Db) (row : Option BucketRow)
    (faults : List Bool)
    → ((r : Bucket) → r.enabled ≡ false → f r ≡ g r)
    → find bucket_key text_eq bucket db.buckets ≡ row
    → row_is_enabled row ≡ false
    → (telling bucket_error (get_bucket bucket) >>= f) (record { db = db; faults = faults })
      ≡ (telling bucket_error (get_bucket bucket) >>= g) (record { db = db; faults = faults })
unfolding telling get_bucket ◌>>=◌ Sql.◌>>=◌
get_bucket-disabled f g bucket db row (true ∷ faults) same e h = refl
get_bucket-disabled f g bucket db none [] same e h = rw e refl
get_bucket-disabled f g bucket db (some row) [] same e h =
    rw e (ap (λ (k : Steps ℕ ℕ). k (record { db = db; faults = [] })) (same (bucket_of_row row) h))
get_bucket-disabled f g bucket db none (false ∷ faults) same e h = rw e refl
get_bucket-disabled f g bucket db (some row) (false ∷ faults) same e h =
    rw e
      (ap (λ (k : Steps ℕ ℕ). k (record { db = db; faults = faults })) (same (bucket_of_row row) h))

-- The handler with another webdav.Handler.
abbrev pub changed : Handler → (DavRequest → Steps ℕ ℕ) → Handler
changed h other = record h { forward = other }

module _ (h : Handler) (r : DavRequest) (now : Time) (other : DavRequest → Steps ℕ ℕ) where
  serve_bucket-disabled :
      (path bucket key : Text) (record_of : Bucket)
      → record_of.enabled ≡ false
      → serve_bucket h r path now bucket key record_of
        ≡ serve_bucket (changed h other) r path now bucket key record_of
  unfolding serve_bucket
  serve_bucket-disabled path bucket key record_of e = rw e refl

  serve_parsed-disabled :
      (path bucket key : Text) (s : Session)
      → is_enabled bucket s.db ≡ false
      → serve_parsed h r path now (at bucket key) s
        ≡ serve_parsed (changed h other) r path now (at bucket key) s
  unfolding serve_parsed
  serve_parsed-disabled path bucket key s e =
      elim (Bool-cases (text_eq r.method (codes "MKCOL") && text_eq key [])) [
        | inl refused ↦
            ap (λ (k : Steps ℕ ℕ). k s) (if_true _ _ refused ∙ sym (if_true _ _ refused))
        | inr passed ↦
            ap (λ (k : Steps ℕ ℕ). k s) (if_false _ _ passed)
            ∙ get_bucket-disabled (serve_bucket h r path now bucket key)
                (serve_bucket (changed h other) r path now bucket key) bucket s.db _ s.faults
                (serve_bucket-disabled path bucket key) refl e
            ∙ sym (ap (λ (k : Steps ℕ ℕ). k s) (if_false _ _ passed))
      ]

true_of : (b : Bool) → not b ≡ false → b ≡ true
true_of true h = refl
true_of false h = cc

-- A request without credentials, or with a name and a password that are no entry of the table.
abbrev pub IsStranger : List (Text × Text) → Option (Text × Text) → Type 0
IsStranger creds none = Unit
IsStranger creds (some sent) = All (λ entry. ¬ (entry ≡ sent)) creds

stranger_refused :
    (creds : List (Text × Text)) (user pass : Text)
    → All (λ entry. ¬ (entry ≡ (user, pass))) creds
    → is_secret pass (credential_of user creds) ≡ false
unfolding credential_of is_secret
stranger_refused [] user pass h = refl
stranger_refused ((name, secret) ∷ creds) user pass (h, hs) =
    elim (Bool-cases (text_eq name user)) [
      | inr other ↦ rw other (stranger_refused creds user pass hs)
      | inl named ↦ rw named (elim (Bool-cases (text_eq secret pass)) [
        | inr wrong ↦ wrong
        | inl right ↦
            let same_name = (text_eq_iff name user).0 named in
            let same_secret = (text_eq_iff secret pass).0 right in absurd (h (cc))
      ])
    ]

check_basic_auth-IsStranger :
    (creds : List (Text × Text)) (sent : Option (Text × Text))
    → IsStranger creds sent
    → check_basic_auth creds sent ≡ false
unfolding check_basic_auth
check_basic_auth-IsStranger creds none h = refl
check_basic_auth-IsStranger creds (some (user, pass)) h = stranger_refused creds user pass h

-- The request is of a stranger, or its path is in a bucket that the table does not have as enabled.
abbrev pub IsBarred : Handler → DavRequest → Db → Type 0
IsBarred h r db =
    IsStranger h.creds r.basic_auth
    ⊎ ((bucket : Text) × (key : Text) × (parse_path (below_prefix h.prefix r.url_path)
          ≡ ok (at bucket key))
        × (is_enabled bucket db ≡ false))

barred_passes :
    (h : Handler) (r : DavRequest) (now : Time) (other : DavRequest → Steps ℕ ℕ) (s : Session)
    → IsBarred h r s.db
    → not (check_basic_auth h.creds r.basic_auth) ≡ false
    → (of_result (path_of (below_prefix h.prefix r.url_path))
          >>= serve_parsed h (with_depth r) (below_prefix h.prefix r.url_path) now)
        s
      ≡ (of_result (path_of (below_prefix h.prefix r.url_path))
            >>= serve_parsed
                (changed h other)
                (with_depth r)
                (below_prefix h.prefix r.url_path)
                now)
          s
unfolding of_result ◌>>=◌
barred_passes h r now other s (inl stranger) known =
    let refused = check_basic_auth-IsStranger h.creds r.basic_auth stranger in
    let accepted = true_of _ known in absurd (false≢true (sym refused ∙ accepted))
barred_passes h r now other s (inr (bucket, key, of_path, disabled)) known =
    let path = below_prefix h.prefix r.url_path in
    subst
      (λ o.
        (of_result o >>= serve_parsed h (with_depth r) path now) s
        ≡ (of_result o >>= serve_parsed (changed h other) (with_depth r) path now) s)
      (sym (path_of_ok path (at bucket key) of_path))
      (serve_parsed-disabled h (with_depth r) now other path bucket key s disabled)

-- What webdav.Handler would do does not matter for a request, to whatever path, that comes without
-- credentials or with a name and a password that are no entry of the handler's credentials, nor for
-- one whose path is in a bucket that the table does not have as enabled: whatever else stands in its
-- place, the answer and the session are the same, whichever statements the engine refuses. So no such
-- request reaches it.
pub serve_http-guarded :
    (h : Handler) (r : DavRequest) (now : Time) (other : DavRequest → Steps ℕ ℕ) (s : Session)
    → IsBarred h r s.db
    → serve_http h r now s ≡ serve_http (changed h other) r now s
unfolding serve_http
serve_http-guarded h r now other s barred =
    let path = below_prefix h.prefix r.url_path in
    guards_same (not (has_prefix r.url_path h.prefix)) (not (check_basic_auth h.creds r.basic_auth))
      (text_eq r.method (codes "OPTIONS"))
      (text_eq r.method (codes "PROPFIND") && is_infinity r.depth) (raise 404) (raise 401)
      (handle_options path) (raise 403)
      (of_result (path_of path) >>= serve_parsed h (with_depth r) path now)
      (of_result (path_of path) >>= serve_parsed (changed h other) (with_depth r) path now) s
      (barred_passes h r now other s barred)
