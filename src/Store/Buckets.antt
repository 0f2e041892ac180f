-- ===== src/Store/Buckets.antt =====
-- store/store.go: the buckets of ObjectStore, and those it serves from its start on.
use tg_files.Common.{Text, List, [], ◌∷◌, Result, ok, err, if◌then◌else◌}
use tg_files.Metadata.Types.{Bucket}
use tg_files.Metadata.Sql.{DbError, Session}
use tg_files.Metadata.Buckets
use tg_files.Store.Types.{Failure, store, meta, no_such_bucket, not_implemented}
use tg_files.Store.Multipart.{ObjectStore}
use tg_files.Store.Objects.{store_error}

-- The loop of NewObjectStore over the buckets.
unfoldable pub served : List Bucket → List Bucket
served [] = []
served (bucket ∷ buckets) =
    let rest = served buckets in if bucket.enabled then bucket ∷ rest else rest

unfoldable pub started : Result DbError (List Bucket) × Session → Result Failure ObjectStore
unfolding served
started (err e, session) = err (meta e)
started (ok buckets, session) = ok (record {
  session = session;
  startup_buckets = served buckets;
  multipart_uploads = [];
  orphans = [];
})

-- NewObjectStore, but for its options
unfoldable pub new_object_store : Session → Result Failure ObjectStore
unfolding started Buckets.list_buckets
new_object_store session = started (Buckets.list_buckets session)

-- DeleteBucket, behind GetBucket
unfoldable pub delete_known :
    Text → ObjectStore → Result DbError Bucket × Session → Result Failure Unit × ObjectStore
unfolding Buckets.delete_bucket store_error
delete_known name s (err e, session) =
    (err (store_error (store no_such_bucket) e), record s { session = session })
delete_known name s (ok bucket, session) =
    let (r, after) = Buckets.delete_bucket name session in
    let deleted : Result Failure Unit = elim r [ err e ↦ err (meta e) | ok _ ↦ ok tt ] in
    if bucket.enabled
    then (err (store not_implemented), record s { session = session })
    else (deleted, record s { session = after })

unfoldable pub delete_bucket : Text → ObjectStore → Result Failure Unit × ObjectStore
unfolding delete_known Buckets.get_bucket
delete_bucket name s = delete_known name s (Buckets.get_bucket name s.session)
