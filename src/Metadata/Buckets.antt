-- ===== src/Metadata/Buckets.antt =====
-- metadata/sqlite.go: buckets, and the renaming of one.
pub mod Renaming
pub mod Renamed
mod Tests
use tg_files.Common.{
  ℕ, Text, Bool, true, false, not, ◌&&◌, List, [], ◌∷◌, Option, none, some, if◌then◌else◌, map,
  text_eq, select, length, ◌==◌, ltb, Result, ok, err, text_lt,
}
use tg_files.Metadata.Types.{
  Bucket, BucketRow, BucketRename, Chunk, ObjectRow, Db, unix_seconds, bool_to_int,
}
use tg_files.Metadata.Sql.{
  Sql, DbError, pure, raise, exec, query, transaction, ◌>>=◌, ◌>>◌, not_found, same_source,
  destination_bucket_exists, constraint,
}
use tg_files.Metadata.Table.{find, upsert, without, update}
use tg_files.Metadata.Statements.{
  bucket_key, object_key, chunk_key, same_object, same_chunk, order_by,
}

unfoldable pub row_of_bucket : Bucket → BucketRow
unfolding bool_to_int
row_of_bucket b = record {
  name = b.name;
  chat_id = b.chat_id;
  created_at = b.created_at.seconds;
  enabled = bool_to_int b.enabled;
}

unfoldable pub bucket_of_row : BucketRow → Bucket
unfolding unix_seconds
bucket_of_row r = record {
  name = r.name;
  chat_id = r.chat_id;
  created_at = unix_seconds r.created_at;
  enabled = not (r.enabled == 0);
}

-- INSERT INTO buckets … ON CONFLICT(name) DO UPDATE SET …
unfoldable pub upsert_bucket_row : BucketRow → Db → Result DbError Db
upsert_bucket_row row db = ok (record db { buckets = upsert bucket_key text_eq row db.buckets })

unfoldable pub upsert_bucket : Bucket → Sql Unit
unfolding upsert_bucket_row row_of_bucket
upsert_bucket bucket = exec (upsert_bucket_row (row_of_bucket bucket))

-- sql.ErrNoRows is ErrNotFound.
unfoldable pub scan_bucket : Option BucketRow → Sql Bucket
unfolding bucket_of_row
scan_bucket none = raise not_found
scan_bucket (some row) = pure (bucket_of_row row)

unfoldable pub get_bucket : Text → Sql Bucket
unfolding scan_bucket
get_bucket name = do row ← query (λ db. find bucket_key text_eq name db.buckets); scan_bucket row

unfoldable pub name_before : BucketRow → BucketRow → Bool
name_before x y = text_lt x.name y.name

-- WHERE enabled = 1 ORDER BY name ASC
unfoldable pub list_buckets : Sql (List Bucket)
unfolding bucket_of_row name_before order_by
list_buckets = do
  rows ← query (λ db. order_by name_before (select (λ r. r.enabled == 1) db.buckets))
  pure (map bucket_of_row rows)

-- DELETE FROM … WHERE bucket = ?
unfoldable pub delete_chunks_of_bucket : Text → Db → Result DbError Db
delete_chunks_of_bucket bucket db =
    ok (record db { object_chunks = select (λ c. not (text_eq c.bucket bucket)) db.object_chunks })

unfoldable pub delete_objects_of_bucket : Text → Db → Result DbError Db
delete_objects_of_bucket bucket db =
    ok (record db { objects = select (λ r. not (text_eq r.bucket bucket)) db.objects })

unfoldable pub delete_bucket_row : Text → Db → Result DbError Db
delete_bucket_row bucket db =
    ok (record db { buckets = without bucket_key text_eq bucket db.buckets })

unfoldable pub delete_bucket : Text → Sql Unit
unfolding delete_chunks_of_bucket delete_objects_of_bucket delete_bucket_row
delete_bucket bucket = transaction (do
  exec (delete_chunks_of_bucket bucket)
  exec (delete_objects_of_bucket bucket)
  exec (delete_bucket_row bucket))

unfoldable pub contains_text : List Text → Text → Bool
contains_text [] t = false
contains_text (x ∷ xs) t = if text_eq x t then true else contains_text xs t

-- UPDATE buckets SET enabled = 0 WHERE enabled = 1, and … AND name NOT IN (…) if there are names
unfoldable pub disable_row : List Text → BucketRow → BucketRow
unfolding contains_text
disable_row keep_names row =
    if row.enabled == 1 && not (contains_text keep_names row.name)
    then record row { enabled = 0 }
    else row

unfoldable pub disable_rows : List Text → Db → Result DbError Db
unfolding disable_row
disable_rows keep_names db = ok (record db { buckets = map (disable_row keep_names) db.buckets })

unfoldable pub disable_buckets_except : List Text → Sql Unit
unfolding disable_rows
disable_buckets_except keep_names = exec (disable_rows keep_names)

-- SELECT COUNT(*) FROM … WHERE …
unfoldable pub count_bucket_rows : Text → Db → ℕ
count_bucket_rows name db = length (select (λ (r : BucketRow). text_eq r.name name) db.buckets)

unfoldable pub count_object_rows : Text → Db → ℕ
count_object_rows name db = length (select (λ (r : ObjectRow). text_eq r.bucket name) db.objects)

unfoldable pub count_chunk_rows : Text → Db → ℕ
count_chunk_rows name db = length (select (λ (c : Chunk). text_eq c.bucket name) db.object_chunks)

unfoldable pub count_bucket_rename_rows : Text → Sql BucketRename
unfolding count_bucket_rows count_object_rows count_chunk_rows
count_bucket_rename_rows old_name = do
  buckets ← query (count_bucket_rows old_name)
  objects ← query (count_object_rows old_name)
  chunks ← query (count_chunk_rows old_name)
  pure (record { buckets = buckets; objects = objects; chunks = chunks })

-- UPDATE … SET name = ? WHERE name = ?, refused where two rows would have one key
unfoldable pub settle_rows : {A : Type 0} → (List A → Db) → Option (List A) → Result DbError Db
settle_rows write none = err constraint
settle_rows write (some rows) = ok (write rows)

unfoldable pub renamed_bucket : Text → Text → BucketRow → BucketRow
renamed_bucket old_name new_name r =
    if text_eq r.name old_name then record r { name = new_name } else r

unfoldable pub renamed_object : Text → Text → ObjectRow → ObjectRow
renamed_object old_name new_name r =
    if text_eq r.bucket old_name then record r { bucket = new_name } else r

unfoldable pub renamed_chunk : Text → Text → Chunk → Chunk
renamed_chunk old_name new_name c =
    if text_eq c.bucket old_name then record c { bucket = new_name } else c

unfoldable pub rename_bucket_row : Text → Text → Db → Result DbError Db
unfolding renamed_bucket settle_rows
rename_bucket_row old_name new_name db =
    settle_rows (λ rows. record db { buckets = rows })
      (update bucket_key text_eq (renamed_bucket old_name new_name) db.buckets)

unfoldable pub rename_object_rows : Text → Text → Db → Result DbError Db
unfolding renamed_object settle_rows
rename_object_rows old_name new_name db =
    settle_rows (λ rows. record db { objects = rows })
      (update object_key same_object (renamed_object old_name new_name) db.objects)

unfoldable pub rename_chunk_rows : Text → Text → Db → Result DbError Db
unfolding renamed_chunk settle_rows
rename_chunk_rows old_name new_name db =
    settle_rows (λ rows. record db { object_chunks = rows })
      (update chunk_key same_chunk (renamed_chunk old_name new_name) db.object_chunks)

unfoldable pub rename_bucket : Text → Text → Sql BucketRename
unfolding count_bucket_rows count_object_rows count_chunk_rows rename_bucket_row rename_object_rows
    rename_chunk_rows
rename_bucket old_name new_name =
    if text_eq old_name new_name
    then raise same_source
    else transaction (do
      exists ← query (count_bucket_rows old_name)
      if exists == 0 then raise not_found else do
        target_exists ← query (count_bucket_rows new_name)
        if ltb 0 target_exists then raise destination_bucket_exists else do
          objects ← query (count_object_rows old_name)
          chunks ← query (count_chunk_rows old_name)
          exec (rename_bucket_row old_name new_name)
          exec (rename_object_rows old_name new_name)
          exec (rename_chunk_rows old_name new_name)
          pure (record { buckets = 1; objects = objects; chunks = chunks }))
