-- ===== src/Metadata/Prefixes.antt =====
-- metadata/sqlite.go: all objects below a prefix.
pub mod Deletes
pub mod Moves
use tg_files.Common.{
  zero, suc, length, ℕ, Text, Bool, true, false, not, ◌&&◌, List, [], ◌∷◌, ◌++◌, if◌then◌else◌, map,
  text_eq,
}
use tg_files.Golang.Strings.{trim_prefix}
use tg_files.Golang.Int64.{pos}
use tg_files.Metadata.Types.{Object, Time}
use tg_files.Metadata.Sql.{
  Sql, pure, raise, engine, exec, query, transaction, ◌>>=◌, ◌>>◌, destination_exists, same_source,
}
use tg_files.Metadata.Statements.{
  select_objects_like, select_chunks, delete_chunks_like, delete_objects_like, count_objects_like,
}
use tg_files.Metadata.Objects.{
  list_objects, object_of_row, object_exists_in_tx, put_object_in_tx, copied_object,
  copy_chunks_for_key,
}
use tg_files.Metadata.Like.{prefix_pattern}

-- The key that an object below one prefix gets below another.
unfoldable pub moved_key : Text → Text → Text → Text
moved_key src_prefix dst_prefix key = dst_prefix ++ trim_prefix key src_prefix

-- The loop of copyPrefixInTx over the objects that the query returned.
unfoldable pub copy_each : Text → Text → Text → Bool → Time → Bool → List Object → Sql Bool
unfolding object_exists_in_tx select_chunks put_object_in_tx copied_object copy_chunks_for_key
    moved_key
copy_each bucket src_prefix dst_prefix overwrite now created [] = pure created
copy_each bucket src_prefix dst_prefix overwrite now created (src ∷ objects) = do
  let dst_key = moved_key src_prefix dst_prefix src.key
  dst_exists ← object_exists_in_tx bucket dst_key
  if dst_exists && not overwrite then raise destination_exists else do
    chunks ← query (select_chunks bucket src.key)
    put_object_in_tx (copied_object src bucket dst_key now)
        (copy_chunks_for_key chunks bucket dst_key)
    copy_each bucket src_prefix dst_prefix overwrite now (if dst_exists then false else created)
        objects

unfoldable pub copy_prefix_in_tx : Text → Text → Text → Bool → Time → Sql Bool
unfolding select_objects_like object_of_row copy_each
copy_prefix_in_tx bucket src_prefix dst_prefix overwrite now = do
  rows ← query (select_objects_like bucket (prefix_pattern src_prefix))
  copy_each bucket src_prefix dst_prefix overwrite now true (map object_of_row rows)

unfoldable pub delete_prefix_in_tx : Text → Text → Sql Unit
unfolding delete_chunks_like delete_objects_like
delete_prefix_in_tx bucket prefix = do
  exec (delete_chunks_like bucket (prefix_pattern prefix))
  exec (delete_objects_like bucket (prefix_pattern prefix))

unfoldable pub copy_prefix : Text → Text → Text → Bool → Time → Sql Bool
unfolding copy_prefix_in_tx
copy_prefix bucket src_prefix dst_prefix overwrite now =
    transaction (copy_prefix_in_tx bucket src_prefix dst_prefix overwrite now)

unfoldable pub move_prefix : Text → Text → Text → Bool → Time → Sql Bool
unfolding copy_prefix_in_tx delete_prefix_in_tx
move_prefix bucket src_prefix dst_prefix overwrite now =
    if text_eq src_prefix dst_prefix
    then raise same_source
    else transaction (do
      created ← copy_prefix_in_tx bucket src_prefix dst_prefix overwrite now
      delete_prefix_in_tx bucket src_prefix
      pure created)

unfoldable pub delete_prefix : Text → Text → Sql Unit
unfolding delete_prefix_in_tx
delete_prefix bucket prefix = transaction (delete_prefix_in_tx bucket prefix)

-- objects[len(objects)-1].Key
abbrev pub last_key : Object → List Object → Text
last_key object [] = object.key
last_key object (next ∷ objects) = last_key next objects

-- What the loop of ListAllObjects does with a page.
unfoldable pub gather_page :
    List Object → (Text → List Object → Sql (List Object)) → List Object → Sql (List Object)
gather_page all continue [] = pure all
gather_page all continue (object ∷ objects) =
    continue (last_key object objects) (all ++ object ∷ objects)

-- The loop of ListAllObjects: pages of 1000 objects behind a key, until one is empty. Every page that
-- is not empty leaves fewer objects behind its last key, so that fuel above their number is enough.
unfoldable pub list_pages : ℕ → Text → Text → Text → List Object → Sql (List Object)
unfolding list_objects gather_page
list_pages zero bucket prefix after_key all = raise engine
list_pages (suc fuel) bucket prefix after_key all = do
  objects ←
      list_objects
        (record { bucket = bucket; prefix = prefix; after_key = after_key; limit = pos 1000 })
  gather_page all (list_pages fuel bucket prefix) objects

unfoldable pub list_all_objects : Text → Text → Sql (List Object)
unfolding list_pages
list_all_objects bucket prefix s = list_pages (suc (length s.db.objects)) bucket prefix [] [] s

unfoldable pub count_objects : Text → Text → Sql ℕ
unfolding count_objects_like
count_objects bucket prefix = query (count_objects_like bucket (prefix_pattern prefix))
