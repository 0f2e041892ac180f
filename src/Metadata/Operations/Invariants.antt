-- ===== src/Metadata/Operations/Invariants.antt =====
-- Every writing method keeps the primary keys unique.
use tg_files.Common.{Text, Bool, List, [], ◌∷◌, none, some, Option}
use tg_files.Metadata.Types.{Object, ObjectRow, Time}
use tg_files.Metadata.Sql.Preserves.{Preserves, preserve_rules}
use tg_files.Metadata.Objects.{
  scan_object, get_object_in_tx, object_exists_in_tx, delete_object_in_tx,
}
use tg_files.Metadata.Objects
use tg_files.Metadata.Prefixes.{copy_each, copy_prefix_in_tx, delete_prefix_in_tx}
use tg_files.Metadata.Prefixes
use tg_files.Metadata.Buckets
use tg_files.Metadata.Links
use tg_files.Metadata.Operations.{run, Operation}
use tg_files.Metadata.Operations.BucketKeys.{
  upsert_bucket_row-HasUniqueKeys, delete_chunks_of_bucket-HasUniqueKeys,
  delete_objects_of_bucket-HasUniqueKeys, delete_bucket_row-HasUniqueKeys,
  disable_rows-HasUniqueKeys, rename_bucket_row-HasUniqueKeys, rename_object_rows-HasUniqueKeys,
  rename_chunk_rows-HasUniqueKeys, insert_link-HasUniqueKeys, revoke_rows-HasUniqueKeys,
  click_rows-HasUniqueKeys,
}
use tg_files.Metadata.Operations.Keys.{
  HasUniqueKeys, put_object_in_tx-HasUniqueKeys, delete_chunks-HasUniqueKeys,
  delete_object_row-HasUniqueKeys, delete_chunks_like-HasUniqueKeys,
  delete_objects_like-HasUniqueKeys,
}

scan_object-HasUniqueKeys : (row : Option ObjectRow) → Preserves HasUniqueKeys (scan_object row)
unfolding scan_object
scan_object-HasUniqueKeys none = search preserve_rules
scan_object-HasUniqueKeys (some row) = search preserve_rules

get_object_in_tx-HasUniqueKeys :
    (bucket key : Text) → Preserves HasUniqueKeys (get_object_in_tx bucket key)
unfolding get_object_in_tx
get_object_in_tx-HasUniqueKeys bucket key = search (preserve_rules, scan_object-HasUniqueKeys)

object_exists_in_tx-HasUniqueKeys :
    (bucket key : Text) → Preserves HasUniqueKeys (object_exists_in_tx bucket key)
unfolding object_exists_in_tx
object_exists_in_tx-HasUniqueKeys bucket key = search preserve_rules

delete_object_in_tx-HasUniqueKeys :
    (bucket key : Text) → Preserves HasUniqueKeys (delete_object_in_tx bucket key)
unfolding delete_object_in_tx
delete_object_in_tx-HasUniqueKeys bucket key =
    search (preserve_rules, delete_chunks-HasUniqueKeys, delete_object_row-HasUniqueKeys)

ruleset key_rules = (
  preserve_rules, get_object_in_tx-HasUniqueKeys, object_exists_in_tx-HasUniqueKeys,
  put_object_in_tx-HasUniqueKeys, delete_object_in_tx-HasUniqueKeys,
)

copy_object-HasUniqueKeys :
    (bucket src dst : Text) (overwrite : Bool) (now : Time)
    → Preserves HasUniqueKeys (Objects.copy_object bucket src dst overwrite now)
unfolding Objects.copy_object
copy_object-HasUniqueKeys bucket src dst overwrite now = search key_rules depth 9

move_object-HasUniqueKeys :
    (bucket src dst : Text) (overwrite : Bool) (now : Time)
    → Preserves HasUniqueKeys (Objects.move_object bucket src dst overwrite now)
unfolding Objects.move_object
move_object-HasUniqueKeys bucket src dst overwrite now = search key_rules depth 11

copy_each-HasUniqueKeys :
    (bucket src dst : Text) (overwrite : Bool) (now : Time) (created : Bool) (objects : List Object)
    → Preserves HasUniqueKeys (copy_each bucket src dst overwrite now created objects)
unfolding copy_each
copy_each-HasUniqueKeys bucket src dst overwrite now created [] = search preserve_rules
copy_each-HasUniqueKeys bucket src dst overwrite now created (o ∷ objects) =
    search (key_rules, λ (c : Bool). copy_each-HasUniqueKeys bucket src dst overwrite now c objects)
      depth 9

copy_prefix_in_tx-HasUniqueKeys :
    (bucket src dst : Text) (overwrite : Bool) (now : Time)
    → Preserves HasUniqueKeys (copy_prefix_in_tx bucket src dst overwrite now)
unfolding copy_prefix_in_tx
copy_prefix_in_tx-HasUniqueKeys bucket src dst overwrite now =
    search (preserve_rules, copy_each-HasUniqueKeys)

delete_prefix_in_tx-HasUniqueKeys :
    (bucket prefix : Text) → Preserves HasUniqueKeys (delete_prefix_in_tx bucket prefix)
unfolding delete_prefix_in_tx
delete_prefix_in_tx-HasUniqueKeys bucket prefix =
    search (preserve_rules, delete_chunks_like-HasUniqueKeys, delete_objects_like-HasUniqueKeys)

move_prefix-HasUniqueKeys :
    (bucket src dst : Text) (overwrite : Bool) (now : Time)
    → Preserves HasUniqueKeys (Prefixes.move_prefix bucket src dst overwrite now)
unfolding Prefixes.move_prefix
move_prefix-HasUniqueKeys bucket src dst overwrite now =
    search (preserve_rules, copy_prefix_in_tx-HasUniqueKeys, delete_prefix_in_tx-HasUniqueKeys)
      depth 7

delete_bucket-HasUniqueKeys :
    (bucket : Text) → Preserves HasUniqueKeys (Buckets.delete_bucket bucket)
unfolding Buckets.delete_bucket
delete_bucket-HasUniqueKeys bucket = search (
  preserve_rules, delete_chunks_of_bucket-HasUniqueKeys, delete_objects_of_bucket-HasUniqueKeys,
  delete_bucket_row-HasUniqueKeys,
)

rename_bucket-HasUniqueKeys :
    (old_name new_name : Text) → Preserves HasUniqueKeys (Buckets.rename_bucket old_name new_name)
unfolding Buckets.rename_bucket
rename_bucket-HasUniqueKeys old_name new_name =
    search
      (
        preserve_rules, rename_bucket_row-HasUniqueKeys, rename_object_rows-HasUniqueKeys,
        rename_chunk_rows-HasUniqueKeys,
      )
      depth 14

revoke_direct_link-HasUniqueKeys :
    (token : Text) → Preserves HasUniqueKeys (Links.revoke_direct_link token)
unfolding Links.revoke_direct_link
revoke_direct_link-HasUniqueKeys token = search (preserve_rules, revoke_rows-HasUniqueKeys)

-- Every writing method of the store keeps the primary keys of the four tables unique, whatever its
-- arguments, whichever statements the engine refuses, and whether the method returns or fails.
pub run-HasUniqueKeys : (op : Operation) → Preserves HasUniqueKeys (run op)
unfolding run
run-HasUniqueKeys (Operation.put_object object chunks) =
    unfold Objects.put_object in search (preserve_rules, put_object_in_tx-HasUniqueKeys)
run-HasUniqueKeys (Operation.delete_object bucket key) =
    unfold Objects.delete_object in search (preserve_rules, delete_object_in_tx-HasUniqueKeys)
run-HasUniqueKeys (Operation.copy_object bucket src dst overwrite now) =
    search (preserve_rules, copy_object-HasUniqueKeys)
run-HasUniqueKeys (Operation.move_object bucket src dst overwrite now) =
    search (preserve_rules, move_object-HasUniqueKeys)
run-HasUniqueKeys (Operation.copy_prefix bucket src dst overwrite now) =
    unfold Prefixes.copy_prefix in search (preserve_rules, copy_prefix_in_tx-HasUniqueKeys)
run-HasUniqueKeys (Operation.move_prefix bucket src dst overwrite now) =
    search (preserve_rules, move_prefix-HasUniqueKeys)
run-HasUniqueKeys (Operation.delete_prefix bucket prefix) =
    unfold Prefixes.delete_prefix in search (preserve_rules, delete_prefix_in_tx-HasUniqueKeys)
run-HasUniqueKeys (Operation.upsert_bucket bucket) =
    unfold Buckets.upsert_bucket in search upsert_bucket_row-HasUniqueKeys
run-HasUniqueKeys (Operation.delete_bucket bucket) = delete_bucket-HasUniqueKeys bucket
run-HasUniqueKeys (Operation.disable_buckets_except keep_names) =
    unfold Buckets.disable_buckets_except in search disable_rows-HasUniqueKeys
run-HasUniqueKeys (Operation.rename_bucket old_name new_name) =
    search (preserve_rules, rename_bucket-HasUniqueKeys)
run-HasUniqueKeys (Operation.create_direct_link link) =
    unfold Links.create_direct_link in search insert_link-HasUniqueKeys
run-HasUniqueKeys (Operation.revoke_direct_link token) = revoke_direct_link-HasUniqueKeys token
run-HasUniqueKeys (Operation.increment_direct_link_click token) =
    unfold Links.increment_direct_link_click in search click_rows-HasUniqueKeys
