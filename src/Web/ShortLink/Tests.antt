-- ===== src/Web/ShortLink/Tests.antt =====
-- Links at concrete inputs. A file's id at Telegram is its content.
use tg_files.Common.{Text, codes, ◌≡◌, refl, [], ◌∷◌, arith, false, text_eq, inr, inl, true}
use tg_files.Web.ShortLink.Clicks.{handle_direct_link-clicked, Counted}
use tg_files.Common.{none}
use tg_files.Golang.Int64.{ℤ, pos, sub64}
use tg_files.Golang.Strings.{has_prefix, trim_prefix, contains_byte, cut}
use tg_files.Golang.Strconv.{parse_int}
use tg_files.Metadata.Types.{Db, Chunk, ObjectRow, LinkRow, Time, Bucket}
use tg_files.Metadata.Sql.{calm}
use tg_files.Metadata.Table.{find}
use tg_files.Metadata.Statements.{
  select_object, select_chunks, same_object, order_by, part_before, of_object, eqb_ℤ,
}
use tg_files.Metadata.Links.{link_of_row, is_zero}
use tg_files.Store.Range.{parse_range}
use tg_files.Store.UploadStrategy.{one_of}
use tg_files.Store.Multipart.{ObjectStore, before}
use tg_files.Store.Multipart.Layout.{chunk_refs_from_metadata}
use tg_files.Web.ShortLink.{answered, refused, handle_direct_link, is_expired}
use tg_files.Web.ShortLink.Serving.{
  handle_direct_link-range, handle_direct_link-refused, part_answer,
}

abbrev startup_bucket : Text → Bucket
startup_bucket name = record {
  name = name;
  chat_id = codes "1";
  created_at = record { seconds = pos 5; nanos = 0 };
  enabled = true;
}

abbrev photos : Text
photos = codes "photos"

abbrev link_row : LinkRow
link_row = record {
  token = codes "t";
  bucket = photos;
  key = codes "sea";
  filename = [];
  created_at = pos 10;
  expires_at = pos 100;
  created_by = [];
  revoked = 0;
  click_count = pos 0;
}

abbrev sea_row : ObjectRow
sea_row = record {
  bucket = photos;
  key = codes "sea";
  size = pos 6;
  content_type = [];
  etag = codes "e";
  sha256 = [];
  last_modified = pos 10;
  chunk_count = pos 2;
  telegram_type = codes "document";
  upload_strategy = codes "multipart";
}

abbrev chunk_row : ℤ → ℤ → Text → Chunk
chunk_row number offset id = record {
  bucket = photos;
  key = codes "sea";
  part_number = number;
  offset = offset;
  size = pos 3;
  telegram_type = codes "document";
  telegram_file_id = id;
  telegram_message_id = number;
  telegram_file_unique_id = [];
  sha256 = [];
}

abbrev one_link : Db
one_link = record {
  buckets = [];
  objects = sea_row ∷ [];
  object_chunks =
      chunk_row (pos 2) (pos 3) (codes "def") ∷ chunk_row (pos 1) (pos 0) (codes "abc") ∷ [];
  direct_links = link_row ∷ [];
}

abbrev served_store : ObjectStore
served_store = record {
  session = calm one_link;
  startup_buckets = startup_bucket (photos) ∷ [];
  multipart_uploads = [];
  orphans = [];
}

abbrev at_second : ℤ → Time
at_second n = record { seconds = n; nanos = 0 }

abbrev same : Text → Text
same s = s

handle_direct_link-range_example :
    (handle_direct_link same
      (codes "t")
      false
      (codes "bytes=2-4")
      (at_second (pos 50))
      served_store).0
    ≡ answered (part_answer same one_link link_row sea_row 2 4)
unfolding one_of text_eq find link_of_row is_expired is_zero before eqb_ℤ select_object
    select_chunks same_object order_by part_before of_object chunk_refs_from_metadata parse_range
    has_prefix trim_prefix contains_byte cut parse_int sub64
handle_direct_link-range_example =
    handle_direct_link-range same one_link link_row sea_row (codes "t") (codes "bytes=2-4")
      (at_second (pos 50)) served_store 2 4 refl refl refl refl refl refl refl
      (refl, refl, (refl, refl, tt)) refl (omega arith) refl refl

handle_direct_link-refused_example :
    handle_direct_link same (codes "t") false [] (at_second (pos 101)) served_store
    ≡ (refused 404, served_store)
unfolding text_eq find link_of_row
handle_direct_link-refused_example =
    handle_direct_link-refused same (codes "t") [] false (at_second (pos 101)) served_store one_link
      refl (inr (refl, inl refl))

handle_direct_link-clicked_example :
    (after : Db) × Counted (codes "t") link_row one_link after
    × (handle_direct_link same (codes "t") false [] (at_second (pos 50)) served_store ≡ (
      answered (record {
        status = 200;
        content_length = pos 6;
        content_range = none;
        body = codes "abcdef";
      }),
      record served_store { session = calm after },
    ))
unfolding one_of text_eq find link_of_row is_expired is_zero before eqb_ℤ select_object
    select_chunks same_object order_by part_before of_object chunk_refs_from_metadata
handle_direct_link-clicked_example =
    handle_direct_link-clicked same (codes "t") (at_second (pos 50)) one_link link_row sea_row
      served_store refl refl refl refl refl refl refl (refl, refl, (refl, refl, tt)) refl
