-- ===== src/Store/Listing/Tests.antt =====
-- ListObjects at a concrete table.
use tg_files.Common.{
  Text, codes, ◌≡◌, refl, [], ◌∷◌, some, ok, text_eq, true, false, arith, text_lt, take, Result,
  Bool,
}
use tg_files.Golang.Int64.{pos}
use tg_files.Metadata.Types.{Db, ObjectRow, Bucket}
use tg_files.Metadata.Sql.{calm, Session, DbError, ◌>>=◌}
use tg_files.Metadata.Sql.Reads.{Reads}
use tg_files.Metadata.Like.{like, escape_like}
use tg_files.Metadata.Statements.{same_object, object_key}
use tg_files.Metadata.Table.{has_key, Unique}
use tg_files.Store.UploadStrategy.{one_of}
use tg_files.Store.Multipart.{ObjectStore}
use tg_files.Store.Listing.Entry.{ListObjectsInput, ListObjectsResult, ObjectInfo, ObjectInfo}
use tg_files.Store.Listing.{list_objects, effective_limit, meta_result}
use tg_files.Store.Listing.Pages.{behind}
use tg_files.Store.Listing.Plain.{result_with, leaves}
use tg_files.Store.Listing.Complete.{listing, list_objects-listing}
use tg_files.Store.Listing.Continued.{list_objects-plain, list_objects-continued}

abbrev startup_bucket : Text → Bucket
startup_bucket name = record {
  name = name;
  chat_id = codes "1";
  created_at = record { seconds = pos 5; nanos = 0 };
  enabled = true;
}

abbrev row : Text → ObjectRow
row key = record {
  bucket = codes "b";
  key = key;
  size = pos 1;
  content_type = [];
  etag = codes "e";
  sha256 = [];
  last_modified = pos 10;
  chunk_count = pos 1;
  telegram_type = codes "document";
  upload_strategy = codes "document";
}

abbrev trees : Db
trees = record {
  buckets = [];
  objects =
      row (codes "oak") ∷ row (codes "elm/2") ∷ row (codes "elm/1") ∷ row (codes "yew/1") ∷ [];
  object_chunks = [];
  direct_links = [];
}

abbrev wood : ObjectStore
wood = record {
  session = calm trees;
  startup_buckets = startup_bucket (codes "b") ∷ [];
  multipart_uploads = [];
  orphans = [];
}

abbrev asking : Text → Text → ListObjectsInput
asking delimiter after = record {
  bucket = codes "b";
  prefix = [];
  delimiter = delimiter;
  after_key = after;
  limit = pos 2;
}

abbrev info : Text → ObjectInfo
info key = record {
  bucket = codes "b";
  key = key;
  size = pos 1;
  content_type = [];
  etag = codes "e";
  sha256 = [];
  last_modified = record { seconds = pos 10; nanos = 0 };
}

abbrev two_entries : ListObjectsResult
two_entries = record {
  objects = info (codes "oak") ∷ [];
  common_prefixes = codes "elm/" ∷ [];
  next_continuation_after = codes "oak";
  is_truncated = true;
}

-- Two entries: the group "elm/" and "oak", and "yew/1" is left.
list_objects-grouped : list_objects (asking (codes "/") []) wood ≡ some (ok two_entries, wood)
unfolding list_objects ◌>>=◌ like escape_like text_lt
list_objects-grouped = refl

-- The last entry is a group, and the cursor passes all of it.
list_objects-passed :
    list_objects (record (asking (codes "/") []) { limit = pos 1 }) wood
    ≡ some (
      ok (record {
        objects = [];
        common_prefixes = codes "elm/" ∷ [];
        next_continuation_after = codes "elm/2";
        is_truncated = true;
      }),
      wood,
    )
unfolding list_objects ◌>>=◌ like escape_like text_lt
list_objects-passed = refl

trees-Unique : Unique object_key same_object trees.objects
unfolding has_key same_object text_eq
trees-Unique = (refl, (refl, (refl, (refl, tt))))

list_objects-listing_example :
    (out : Result DbError ListObjectsResult × Session) × (list_objects (asking (codes "/") []) wood
      ≡ some (meta_result out.0, record wood { session = out.1 }))
    × Reads wood.session (listing (asking (codes "/") []) trees) out
list_objects-listing_example =
    list_objects-listing (asking (codes "/") []) wood (unfold one_of text_eq in refl) trees-Unique

list_objects-plain_example :
    list_objects (asking [] (codes "elm/1")) wood
    ≡ some (
      ok (
          result_with
            (take
              (effective_limit (pos 2))
              (behind (asking [] (codes "elm/1")) (codes "elm/1") trees))
            (leaves
              (effective_limit (pos 2))
              (behind (asking [] (codes "elm/1")) (codes "elm/1") trees))),
      wood,
    )
list_objects-plain_example =
    list_objects-plain wood refl trees-Unique (asking [] (codes "elm/1"))
      (unfold one_of text_eq in refl) (unfold text_eq in refl)

abbrev page : Text → Text → Text → Bool → ListObjectsResult
page k l next truncated = record {
  objects = info k ∷ info l ∷ [];
  common_prefixes = [];
  next_continuation_after = next;
  is_truncated = truncated;
}

first_page :
    list_objects (asking [] []) wood
    ≡ some (ok (page (codes "elm/1") (codes "elm/2") (codes "elm/2") true), wood)
unfolding list_objects ◌>>=◌ like escape_like text_lt
first_page = refl

second_page :
    list_objects (asking [] (codes "elm/2")) wood
    ≡ some (ok (page (codes "oak") (codes "yew/1") (codes "yew/1") false), wood)
unfolding list_objects ◌>>=◌ like escape_like text_lt
second_page = refl

list_objects-continued_example :
    (whole : ListObjectsResult) × (list_objects (record (asking [] []) { limit = pos 4 }) wood
      ≡ some (ok whole, wood))
    × (info (codes "elm/1") ∷ info (codes "elm/2") ∷ info (codes "oak") ∷ info (codes "yew/1") ∷ []
        ≡ whole.objects)
    × (false ≡ whole.is_truncated)
list_objects-continued_example =
    list_objects-continued (asking [] []) wood 2 2
      (page (codes "elm/1") (codes "elm/2") (codes "elm/2") true)
      (page (codes "oak") (codes "yew/1") (codes "yew/1") false) refl trees-Unique
      (unfold one_of text_eq in refl) (unfold text_eq in refl) (omega arith) first_page refl
      second_page
