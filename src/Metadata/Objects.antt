-- ===== src/Metadata/Objects.antt =====
-- metadata/sqlite.go: single objects and their chunks.
pub mod Stored
pub mod Steps
pub mod Order
pub mod RoundTrip
pub mod Copies
pub mod Moves
pub mod Views
pub mod Pages
use tg_files.Common.{
  Text, Bool, true, false, not, ◌&&◌, List, [], ◌∷◌, Option, none, some, if◌then◌else◌, map,
  text_eq,
}
use tg_files.Golang.Int64.{pos, pos_part, leb_ℤ}
use tg_files.Metadata.Types.{Object, Chunk, ObjectRow, Time, ListQuery, unix_seconds}
use tg_files.Metadata.Sql.{
  Sql, pure, raise, exec, query, transaction, ◌>>=◌, ◌>>◌, not_found, destination_exists,
  same_source,
}
use tg_files.Metadata.Statements.{
  delete_chunks, upsert_object, insert_chunk, select_object, select_chunks, delete_object_row,
  select_page,
}
use tg_files.Metadata.Like.{prefix_pattern}

-- The columns that a write of an object sends, and scanObject on a row.
unfoldable pub row_of_object : Object → ObjectRow
row_of_object o = record {
  bucket = o.bucket;
  key = o.key;
  size = o.size;
  content_type = o.content_type;
  etag = o.etag;
  sha256 = o.sha256;
  last_modified = o.last_modified.seconds;
  chunk_count = o.chunk_count;
  telegram_type = o.telegram_type;
  upload_strategy = o.upload_strategy;
}

unfoldable pub object_of_row : ObjectRow → Object
unfolding unix_seconds
object_of_row r = record {
  bucket = r.bucket;
  key = r.key;
  size = r.size;
  content_type = r.content_type;
  etag = r.etag;
  sha256 = r.sha256;
  last_modified = unix_seconds r.last_modified;
  chunk_count = r.chunk_count;
  telegram_type = r.telegram_type;
  upload_strategy = r.upload_strategy;
}

-- scanObject: no row is ErrNotFound
unfoldable pub scan_object : Option ObjectRow → Sql Object
unfolding object_of_row
scan_object none = raise not_found
scan_object (some row) = pure (object_of_row row)

unfoldable pub insert_chunks : List Chunk → Sql Unit
unfolding insert_chunk
insert_chunks [] = pure tt
insert_chunks (chunk ∷ chunks) = do exec (insert_chunk chunk); insert_chunks chunks

-- putObjectInTx; PutObject has the same statements in a transaction of its own.
unfoldable pub put_object_in_tx : Object → List Chunk → Sql Unit
unfolding delete_chunks upsert_object row_of_object insert_chunks
put_object_in_tx object chunks = do
  exec (delete_chunks object.bucket object.key)
  exec (upsert_object (row_of_object object))
  insert_chunks chunks

unfoldable pub put_object : Object → List Chunk → Sql Unit
unfolding put_object_in_tx
put_object object chunks = transaction (put_object_in_tx object chunks)

-- getObjectInTx; GetObject has the same queries in a transaction of its own.
unfoldable pub get_object_in_tx : Text → Text → Sql (Object × List Chunk)
unfolding select_object scan_object select_chunks
get_object_in_tx bucket key = do
  row ← query (select_object bucket key)
  object ← scan_object row
  chunks ← query (select_chunks bucket key)
  pure (object, chunks)

unfoldable pub get_object : Text → Text → Sql (Object × List Chunk)
unfolding get_object_in_tx
get_object bucket key = transaction (get_object_in_tx bucket key)

unfoldable pub head_object : Text → Text → Sql Object
unfolding select_object scan_object
head_object bucket key = do row ← query (select_object bucket key); scan_object row

-- objectExistsInTx
unfoldable pub is_some_row : Option ObjectRow → Bool
is_some_row none = false
is_some_row (some row) = true

unfoldable pub object_exists_in_tx : Text → Text → Sql Bool
unfolding select_object is_some_row
object_exists_in_tx bucket key = do row ← query (select_object bucket key); pure (is_some_row row)

unfoldable pub list_objects : ListQuery → Sql (List Object)
unfolding select_page object_of_row
list_objects q = do
  let limit = if leb_ℤ q.limit (pos 0) then 1000 else pos_part q.limit
  rows ← query (select_page q.bucket (prefix_pattern q.prefix) q.after_key limit)
  pure (map object_of_row rows)

unfoldable pub delete_object_in_tx : Text → Text → Sql Unit
unfolding delete_chunks delete_object_row
delete_object_in_tx bucket key = do
  exec (delete_chunks bucket key)
  exec (delete_object_row bucket key)

unfoldable pub delete_object : Text → Text → Sql Unit
unfolding delete_object_in_tx
delete_object bucket key = transaction (delete_object_in_tx bucket key)

-- copyChunksForKey
unfoldable pub copy_chunks_for_key : List Chunk → Text → Text → List Chunk
copy_chunks_for_key chunks bucket key =
    map {A = Chunk} (λ chunk. record chunk { bucket = bucket; key = key }) chunks

-- The object that a copy writes.
unfoldable pub copied_object : Object → Text → Text → Time → Object
copied_object src bucket key now = record src { bucket = bucket; key = key; last_modified = now }

-- The statements that CopyObject and MoveObject share, from the read of the source to the write of
-- the copy; the value is `!dstExists`.
unfoldable pub copy_in_tx : Text → Text → Text → Bool → Time → Sql Bool
unfolding get_object_in_tx object_exists_in_tx put_object_in_tx copied_object copy_chunks_for_key
copy_in_tx bucket src_key dst_key overwrite now = do
  (src, chunks) ← get_object_in_tx bucket src_key
  dst_exists ← object_exists_in_tx bucket dst_key
  if dst_exists && not overwrite then raise destination_exists else do
    put_object_in_tx (copied_object src bucket dst_key now)
        (copy_chunks_for_key chunks bucket dst_key)
    pure (not dst_exists)

unfoldable pub copy_object : Text → Text → Text → Bool → Time → Sql Bool
unfolding copy_in_tx
copy_object bucket src_key dst_key overwrite now =
    transaction (copy_in_tx bucket src_key dst_key overwrite now)

unfoldable pub move_object : Text → Text → Text → Bool → Time → Sql Bool
unfolding copy_in_tx delete_object_in_tx
move_object bucket src_key dst_key overwrite now =
    if text_eq src_key dst_key
    then raise same_source
    else transaction (do
      created ← copy_in_tx bucket src_key dst_key overwrite now
      delete_object_in_tx bucket src_key
      pure created)
