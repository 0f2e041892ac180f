-- ===== src/Store/Objects/Tests.antt =====
-- A whole read at a concrete input. A file's id at Telegram is its content.
use tg_files.Common.{Text, codes, ◌≡◌, refl, [], ◌∷◌, none, ok, text_eq, true}
use tg_files.Golang.Int64.{pos}
use tg_files.Metadata.Types.{Db, Object, Chunk, Bucket}
use tg_files.Metadata.Sql.{calm}
use tg_files.Metadata.Objects
use tg_files.Metadata.Objects.RoundTrip.{get_object-put_object, to_seconds}
use tg_files.Store.UploadStrategy.{one_of}
use tg_files.Store.Multipart.{ObjectStore}
use tg_files.Store.Multipart.Layout.{chunk_refs_from_metadata}
use tg_files.Store.Objects.{read_object}
use tg_files.Store.Objects.Reads.{read_object-whole_chunks}

abbrev startup_bucket : Text → Bucket
startup_bucket name = record {
  name = name;
  chat_id = codes "1";
  created_at = record { seconds = pos 5; nanos = 0 };
  enabled = true;
}

abbrev sky : Object
sky = record {
  bucket = codes "b";
  key = codes "sky";
  size = pos 4;
  content_type = [];
  etag = codes "e";
  sha256 = [];
  last_modified = record { seconds = pos 10; nanos = 3 };
  chunk_count = pos 1;
  telegram_type = codes "document";
  upload_strategy = codes "document";
}

abbrev sky_chunk : Chunk
sky_chunk = record {
  bucket = codes "b";
  key = codes "sky";
  part_number = pos 1;
  offset = pos 0;
  size = pos 4;
  telegram_type = codes "document";
  telegram_file_id = codes "blue";
  telegram_message_id = pos 7;
  telegram_file_unique_id = [];
  sha256 = [];
}

abbrev no_rows : Db
no_rows = record { buckets = []; objects = []; object_chunks = []; direct_links = [] }

abbrev sky_store : ObjectStore
sky_store = record {
  session = (Objects.put_object sky (sky_chunk ∷ []) (calm no_rows)).1;
  startup_buckets = startup_bucket (codes "b") ∷ [];
  multipart_uploads = [];
  orphans = [];
}

abbrev same : Text → Text
same s = s

read_object-whole_chunks_example :
    (read_object same (codes "b") (codes "sky") none sky_store).0
    ≡ ok (to_seconds sky, codes "blue")
unfolding one_of text_eq chunk_refs_from_metadata
read_object-whole_chunks_example =
    read_object-whole_chunks same (codes "b") (codes "sky") sky_store (to_seconds sky)
      (sky_chunk ∷ []) refl (get_object-put_object sky (sky_chunk ∷ []) no_rows (refl, refl, tt)).1
      (refl, refl, tt)
