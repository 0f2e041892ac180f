-- ===== src/Metadata/Buckets/Tests.antt =====
-- A bucket renamed at a concrete input.
use tg_files.Common.{codes, ◌≡◌, refl, ok, err, [], ◌∷◌, text_eq, if◌then◌else◌}
use tg_files.Golang.Int64.{pos}
use tg_files.Metadata.Types.{Db, ObjectRow, Chunk}
use tg_files.Metadata.Sql.{calm, not_found}
use tg_files.Metadata.Table.{has_key}
use tg_files.Metadata.Operations.Keys.{HasUniqueKeys}
use tg_files.Metadata.Objects.{get_object}
use tg_files.Metadata.Buckets.{
  rename_bucket, count_bucket_rows, count_object_rows, count_chunk_rows,
}
use tg_files.Metadata.Buckets.Renamed.{get_object-rename_bucket, under}

abbrev row : ObjectRow
row = record {
  bucket = codes "a";
  key = codes "k";
  size = pos 3;
  content_type = [];
  etag = codes "e";
  sha256 = [];
  last_modified = pos 10;
  chunk_count = pos 1;
  telegram_type = codes "document";
  upload_strategy = codes "document";
}

abbrev chunk : Chunk
chunk = record {
  bucket = codes "a";
  key = codes "k";
  part_number = pos 1;
  offset = pos 0;
  size = pos 3;
  telegram_type = codes "document";
  telegram_file_id = codes "f";
  telegram_message_id = pos 7;
  telegram_file_unique_id = [];
  sha256 = [];
}

abbrev one_bucket : Db
one_bucket = record {
  buckets = record { name = codes "a"; chat_id = codes "c"; created_at = pos 1; enabled = 1 } ∷ [];
  objects = row ∷ [];
  object_chunks = chunk ∷ [];
  direct_links = [];
}

one_bucket-HasUniqueKeys : HasUniqueKeys one_bucket
unfolding has_key
one_bucket-HasUniqueKeys = record {
  buckets = (refl, tt);
  objects = (refl, tt);
  chunks = (refl, tt);
  links = tt;
}

get_object-rename_bucket_example :
    ((rename_bucket (codes "a") (codes "b") (calm one_bucket)).0
      ≡ ok (record {
        buckets = 1;
        objects = count_object_rows (codes "a") one_bucket;
        chunks = count_chunk_rows (codes "a") one_bucket;
      }))
    × ((get_object
          (codes "b")
          (codes "k")
          (rename_bucket (codes "a") (codes "b") (calm one_bucket)).1).0
        ≡ (if text_eq (codes "b") (codes "b")
            then under
                (codes "a")
                (codes "b")
                (get_object (codes "a") (codes "k") (calm one_bucket)).0
            else if text_eq (codes "b") (codes "a")
            then err not_found
            else (get_object (codes "b") (codes "k") (calm one_bucket)).0))
unfolding text_eq count_bucket_rows
get_object-rename_bucket_example =
    get_object-rename_bucket (codes "a") (codes "b") (codes "b") (codes "k") one_bucket
      one_bucket-HasUniqueKeys refl refl refl (refl, tt) (refl, tt)
