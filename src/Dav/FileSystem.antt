-- ===== src/Dav/FileSystem.antt =====
-- internal/dav/fs.go: the methods of FileSystem, but for the files it opens.
pub mod Atomic
pub mod Removing
use tg_files.Common.{
  ℕ, Text, codes, Bool, true, false, not, List, [], ◌∷◌, Option, none, some, if◌then◌else◌, text_eq,
  ltb, Result, ok, err, ◌==◌,
}
use tg_files.Golang.Int64.{ℤ, pos}
use tg_files.Golang.Strings.{ends_with_byte}
use tg_files.Golang.Splitting.{split}
use tg_files.Metadata.Types.{Time, zero_time, Bucket, Object}
use tg_files.Metadata.Objects.{head_object, put_object, delete_object}
use tg_files.Metadata.Objects
use tg_files.Metadata.Buckets.{get_bucket, delete_bucket}
use tg_files.Metadata.Prefixes.{count_objects, delete_prefix}
use tg_files.Dav.Paths.{
  DavError, conflict, not_found, forbidden, too_many, ParsedPath, root, at, parse_path, trim_slash,
  canonical_collection_key, parent_prefix,
}
use tg_files.Dav.Steps.{Steps, pure, raise, ask, optional, ◌>>=◌, ◌>>◌}

-- davFileInfo
pub record DavFileInfo : Type 0 where
  pub name : Text
  pub size : ℤ
  pub mod_time : Time
  pub is_dir : Bool
  pub content_type : Text
  pub etag : Text

-- path.Base of a path that does not end with a slash
unfoldable pub last_element : Text → List Text → Text
last_element w [] = w
last_element w (v ∷ ws) = last_element v ws

unfoldable pub base : Text → Text
unfolding last_element split
base p = last_element [] (split p b'/')

unfoldable pub is_some : {A : Type 0} → Option A → Bool
is_some none = false
is_some (some a) = true

unfoldable pub present : {A : Type 0} → DavError → Option A → Steps DavError A
present e none = raise e
present e (some a) = pure a

-- GetBucket, with ErrNotFound for a bucket that the store does not know
unfoldable pub known_bucket : Text → Steps DavError Bucket
unfolding get_bucket present optional
known_bucket bucket = optional (ask (get_bucket bucket)) >>= present not_found

-- The bucket of a request, where it is not enabled webdav.ErrForbidden.
unfoldable pub enabled_bucket : Text → Steps DavError Bucket
unfolding known_bucket
enabled_bucket bucket = do
  record_of ← known_bucket bucket
  if record_of.enabled then pure record_of else raise forbidden

-- requireEnabledBucket
unfoldable pub require_enabled_bucket : Text → Steps DavError Unit
unfolding enabled_bucket
require_enabled_bucket bucket = do enabled_bucket bucket; pure tt

unfoldable pub implied_info : Text → List Object → Steps DavError DavFileInfo
unfolding base trim_slash
implied_info prefix [] = raise not_found
implied_info prefix (o ∷ objects) = pure (record {
  name = base (trim_slash prefix);
  size = pos 0;
  mod_time = o.last_modified;
  is_dir = true;
  content_type = [];
  etag = [];
})

-- A collection is its marker, or what stands below it.
unfoldable pub collection_info : Text → Text → Option Object → Steps DavError DavFileInfo
unfolding implied_info Objects.list_objects
collection_info bucket prefix none = do
  objects ← ask (
      Objects.list_objects
        (record { bucket = bucket; prefix = prefix; after_key = []; limit = pos 1 }))
  implied_info prefix objects
collection_info bucket prefix (some o) = pure (record {
  name = base (trim_slash prefix);
  size = pos 0;
  mod_time = o.last_modified;
  is_dir = true;
  content_type = o.content_type;
  etag = o.etag;
})

-- statCollection
unfoldable pub stat_collection : Text → Text → Steps DavError DavFileInfo
unfolding enabled_bucket collection_info head_object
stat_collection bucket prefix =
    if text_eq prefix []
    then (do
      record_of ← enabled_bucket bucket
      pure (record {
        name = bucket;
        size = pos 0;
        mod_time = record_of.created_at;
        is_dir = true;
        content_type = [];
        etag = [];
      }))
    else (optional (ask (head_object bucket prefix)) >>= collection_info bucket prefix)

-- checkCollectionExists, and hasCollection of the handler behind canonicalCollectionKey
unfoldable pub check_collection_exists : Text → Text → Steps DavError Bool
unfolding stat_collection is_some
check_collection_exists bucket prefix =
    if text_eq prefix []
    then pure true
    else (do info ← optional (stat_collection bucket prefix); pure (is_some info))

-- collectionExists
unfoldable pub ignoring : Result DavError Bool → Bool
ignoring (ok exists) = exists
ignoring (err e) = false

unfoldable pub collection_exists : Text → Text → Steps DavError Bool
unfolding check_collection_exists ignoring
collection_exists bucket prefix s =
    let (exists, s') = check_collection_exists bucket prefix s in (ok (ignoring exists), s')

-- The handler's hasObject
unfoldable pub has_object : Text → Text → Steps DavError Bool
unfolding is_some head_object
has_object bucket key = do o ← optional (ask (head_object bucket key)); pure (is_some o)

-- The object that stands for a collection.
abbrev pub marker : Text → Text → Time → Object
marker bucket key now = record {
  bucket = bucket;
  key = key;
  size = pos 0;
  content_type = codes "httpd/unix-directory";
  etag = [];
  sha256 = [];
  last_modified = now;
  chunk_count = pos 0;
  telegram_type = [];
  upload_strategy = [];
}

-- A parent that is missing is a conflict.
unfoldable pub require_parent : Text → Text → Steps DavError Unit
unfolding stat_collection present
require_parent bucket parent =
    if text_eq parent []
    then pure tt
    else (do info ← optional (stat_collection bucket parent) >>= present conflict; pure tt)

unfoldable pub make_collection : Text → Text → Time → Steps DavError Unit
unfolding check_collection_exists has_object require_parent put_object parent_prefix trim_slash
make_collection bucket key now = do
  exists ← check_collection_exists bucket key
  if exists then raise conflict else do
    taken ← if text_eq (trim_slash key) [] then pure false else has_object bucket (trim_slash key)
    if taken then raise conflict else do
      require_parent bucket (parent_prefix key)
      ask (put_object (marker bucket key now) [])

unfoldable pub mkdir_at : Time → ParsedPath → Steps DavError Unit
unfolding require_enabled_bucket make_collection canonical_collection_key
mkdir_at now root = raise forbidden
mkdir_at now (at bucket key) = do
  require_enabled_bucket bucket
  if text_eq key []
      then raise forbidden
      else make_collection bucket (canonical_collection_key key) now

-- The path of a request, read.
unfoldable pub of_result : {E A : Type 0} → Result E A → Steps E A
of_result (ok a) = pure a
of_result (err e) = raise e

-- Mkdir; `now` is the time of the call.
unfoldable pub mkdir : Text → Time → Steps DavError Unit
unfolding of_result mkdir_at
mkdir name now = of_result (parse_path name) >>= mkdir_at now

abbrev pub max_recursive_objects : ℕ
max_recursive_objects = 100000

-- The end of RemoveAll for a collection, which the code has twice.
unfoldable pub remove_collection : Text → Text → Steps DavError Unit
unfolding count_objects delete_prefix
remove_collection bucket prefix = do
  count ← ask (count_objects bucket prefix)
  if count == 0
      then raise not_found
      else if ltb max_recursive_objects count
      then raise too_many
      else ask (delete_prefix bucket prefix)

unfoldable pub remove_object_or_collection : Text → Text → Steps DavError Unit
unfolding has_object collection_exists remove_collection canonical_collection_key delete_object
remove_object_or_collection bucket key = do
  present_object ← has_object bucket key
  if present_object then ask (delete_object bucket key) else do
    exists ← collection_exists bucket (canonical_collection_key key)
    if exists then remove_collection bucket (canonical_collection_key key) else raise not_found

-- RemoveAll of a bucket, and of a key in it.
unfoldable pub remove_bucket : Text → Bucket → Steps DavError Unit
unfolding delete_bucket
remove_bucket bucket record_of =
    if record_of.enabled then raise forbidden else ask (delete_bucket bucket)

unfoldable pub remove_key : Text → Text → Bucket → Steps DavError Unit
unfolding remove_collection remove_object_or_collection
remove_key bucket key record_of =
    if not record_of.enabled
    then raise forbidden
    else if ends_with_byte key b'/'
    then remove_collection bucket (canonical_collection_key key)
    else remove_object_or_collection bucket key

unfoldable pub remove_all_at : ParsedPath → Steps DavError Unit
unfolding known_bucket remove_bucket remove_key
remove_all_at root = raise forbidden
remove_all_at (at bucket key) = do
  record_of ← known_bucket bucket
  if text_eq key [] then remove_bucket bucket record_of else remove_key bucket key record_of

-- RemoveAll
unfoldable pub remove_all : Text → Steps DavError Unit
unfolding of_result remove_all_at
remove_all name = of_result (parse_path name) >>= remove_all_at

unfoldable pub file_info : Text → Object → DavFileInfo
unfolding base
file_info key o = record {
  name = base key;
  size = o.size;
  mod_time = o.last_modified;
  is_dir = false;
  content_type = o.content_type;
  etag = o.etag;
}

unfoldable pub stat_found : Text → Text → Option Object → Steps DavError DavFileInfo
unfolding collection_exists file_info canonical_collection_key
stat_found bucket key (some o) = pure (file_info key o)
stat_found bucket key none = do
  exists ← collection_exists bucket (canonical_collection_key key)
  if exists then stat_collection bucket (canonical_collection_key key) else raise not_found

unfoldable pub stat_at : ParsedPath → Steps DavError DavFileInfo
unfolding require_enabled_bucket stat_found
stat_at root = pure (record {
  name = codes "/";
  size = pos 0;
  mod_time = zero_time;
  is_dir = true;
  content_type = [];
  etag = [];
})
stat_at (at bucket key) = do
  require_enabled_bucket bucket
  if text_eq key []
      then stat_collection bucket (canonical_collection_key key)
      else if ends_with_byte key b'/'
      then stat_collection bucket (canonical_collection_key key)
      else (optional (ask (head_object bucket key)) >>= stat_found bucket key)

-- Stat; the os.PathError around an error is left out.
unfoldable pub stat : Text → Steps DavError DavFileInfo
unfolding of_result stat_at
stat name = of_result (parse_path name) >>= stat_at
