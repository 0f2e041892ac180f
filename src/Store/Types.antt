-- ===== src/Store/Types.antt =====
-- store/types.go: the errors that the package declares; store/store.go: what a method of the store
-- fails with.
use tg_files.Metadata.Sql.{DbError}

pub data StoreError : Type 0 where
  not_implemented entity_too_large no_such_bucket no_such_key missing_content_length : StoreError
  invalid_range no_such_upload invalid_part invalid_part_order invalid_argument : StoreError

-- An error of the package, one of the metadata store, or one that a package outside of the source
-- words: of a reader, of Telegram, of the random source.
pub data Failure : Type 0 where
  store : StoreError → Failure
  meta : DbError → Failure
  copied_size end_of_file unexpected_end_of_file telegram random : Failure
