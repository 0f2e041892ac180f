-- ===== src/Metadata/Objects/Views.antt =====
-- PutObject, CopyObject and MoveObject as updates of the map that GetObject reads.
use tg_files.Common.{Text, Bool, false, not, ◌&&◌, List, ◌≡◌, some, Result, ok}
use tg_files.Metadata.Types.{Object, ObjectRow, Chunk, Db, Time}
use tg_files.Metadata.Sql.{DbError}
use tg_files.Metadata.Statements.{select_object, select_chunks}
use tg_files.Metadata.Operations.Keys.{HasUniqueKeys}
use tg_files.Metadata.Objects.{copied_object, copy_chunks_for_key, object_of_row}
use tg_files.Metadata.Objects.RoundTrip.{to_seconds}
use tg_files.Metadata.Objects.Copies.{taken}

module _ (bucket src dst : Text) (overwrite : Bool) (now : Time) (db : Db) (row : ObjectRow)
    (present : select_object bucket src db ≡ some row)
    (fine : taken bucket src dst overwrite now db && not overwrite ≡ false)
    (unique : HasUniqueKeys db) where
  -- What stands at the destination: the source's object and chunks under the new key, and the time
  -- of the copy in whole seconds.
  abbrev pub copied_view : Result DbError (Object × List Chunk)
  copied_view = ok (
    to_seconds (copied_object (object_of_row row) bucket dst now),
    copy_chunks_for_key (select_chunks bucket src db) bucket dst,
  )
