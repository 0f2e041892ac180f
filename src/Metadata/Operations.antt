-- ===== src/Metadata/Operations.antt =====
-- The writing methods of the interface metadata.Store as one data type of requests, for what holds
-- of all of them.
pub mod Atomic
pub mod Keys
pub mod BucketKeys
pub mod Invariants
pub mod Shown
pub mod Copying
use tg_files.Common.{Text, Bool, List}
use tg_files.Metadata.Types.{Object, Chunk, Bucket, DirectLink, Time}
use tg_files.Metadata.Sql.{Sql, pure, ◌>>=◌, ◌>>◌}
use tg_files.Metadata.Objects
use tg_files.Metadata.Prefixes
use tg_files.Metadata.Buckets
use tg_files.Metadata.Links

pub data Operation : Type 0 where
  put_object : Object → List Chunk → Operation
  delete_object : Text → Text → Operation
  -- bucket, source, destination, Overwrite, the time of the copy
  copy_object move_object copy_prefix move_prefix : Text → Text → Text → Bool → Time → Operation
  delete_prefix : Text → Text → Operation
  upsert_bucket : Bucket → Operation
  delete_bucket : Text → Operation
  disable_buckets_except : List Text → Operation
  rename_bucket : Text → Text → Operation
  create_direct_link : DirectLink → Operation
  revoke_direct_link increment_direct_link_click : Text → Operation

-- The result of a method, but for its value.
abbrev dropped : {A : Type 0} → Sql A → Sql Unit
dropped m = do m; pure tt

unfoldable pub run : Operation → Sql Unit
run (put_object object chunks) = Objects.put_object object chunks
run (delete_object bucket key) = Objects.delete_object bucket key
run (copy_object bucket src dst overwrite now) =
    dropped (Objects.copy_object bucket src dst overwrite now)
run (move_object bucket src dst overwrite now) =
    dropped (Objects.move_object bucket src dst overwrite now)
run (copy_prefix bucket src dst overwrite now) =
    dropped (Prefixes.copy_prefix bucket src dst overwrite now)
run (move_prefix bucket src dst overwrite now) =
    dropped (Prefixes.move_prefix bucket src dst overwrite now)
run (delete_prefix bucket prefix) = Prefixes.delete_prefix bucket prefix
run (upsert_bucket bucket) = Buckets.upsert_bucket bucket
run (delete_bucket bucket) = Buckets.delete_bucket bucket
run (disable_buckets_except keep_names) = Buckets.disable_buckets_except keep_names
run (rename_bucket old_name new_name) = dropped (Buckets.rename_bucket old_name new_name)
run (create_direct_link link) = Links.create_direct_link link
run (revoke_direct_link token) = Links.revoke_direct_link token
run (increment_direct_link_click token) = Links.increment_direct_link_click token
