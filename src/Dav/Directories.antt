-- ===== src/Dav/Directories.antt =====
-- internal/dav/fs.go: the collections that OpenFile opens, and Readdir.
pub mod Reading
pub mod Steady
pub mod Whole
use tg_files.Common.{
  ℕ, zero, suc, Text, Bool, true, false, List, [], ◌∷◌, ◌++◌, Option, none, some, if◌then◌else◌,
  ◌&&◌, ◌||◌, text_eq, leb, ltb, length, take, drop, map, text_lt, ◌-◌, suc,
}
use tg_files.Golang.Int64.{ℤ, pos, pos_part, add64, ltb_ℤ}
use tg_files.Golang.Strings.{trim_prefix, cut, ends_with_byte}
use tg_files.Metadata.Types.{Bucket, Object}
use tg_files.Metadata.Statements.{order_by}
use tg_files.Metadata.Buckets.{list_buckets}
use tg_files.Metadata.Objects.{head_object}
use tg_files.Metadata.Prefixes.{list_all_objects}
use tg_files.Store.UploadStrategy.{one_of}
use tg_files.Dav.Paths.{
  DavError, conflict, not_found, forbidden, ParsedPath, root, at, parse_path,
  canonical_collection_key,
}
use tg_files.Dav.Steps.{Steps, pure, raise, ask, optional, ◌>>=◌, ◌>>◌}
use tg_files.Dav.FileSystem.{
  DavFileInfo, stat_collection, check_collection_exists, collection_exists, require_enabled_bucket,
  of_result,
}

-- The fields of davFile that Readdir reads and writes.
pub record DavFile : Type 0 where
  pub is_dir : Bool
  pub children : List DavFileInfo
  pub read_pos : ℕ

abbrev directory : List DavFileInfo → DavFile
directory children = record { is_dir = true; children = children; read_pos = 0 }

-- A name directly below a collection: an object, or all that stands below a name with its slash.
unfoldable pub child_of : Text → Object → Option (Text × Text) → DavFileInfo
child_of remainder o none = record {
  name = remainder;
  size = o.size;
  mod_time = o.last_modified;
  is_dir = false;
  content_type = o.content_type;
  etag = o.etag;
}
child_of remainder o (some (head, tail)) = record {
  name = head ++ b'/' ∷ [];
  size = pos 0;
  mod_time = o.last_modified;
  is_dir = true;
  content_type = [];
  etag = [];
}

-- The loop of collectionChildren; `seen` has the directories that are there already.
unfoldable pub children_of : Text → List Text → List Object → List DavFileInfo
unfolding trim_prefix cut child_of one_of
children_of prefix seen [] = []
children_of prefix seen (o ∷ objects) =
    let remainder = trim_prefix o.key prefix in
    let child = child_of remainder o (cut remainder b'/') in
    let skipped = children_of prefix seen objects in
    let added = child ∷ children_of prefix (child.name ∷ seen) objects in
    let beside = child ∷ skipped in
    if leb (length remainder) 0
    then skipped
    else if child.is_dir
    then if one_of child.name seen then skipped else added
    else beside

unfoldable pub before_by_name : DavFileInfo → DavFileInfo → Bool
before_by_name x y = text_lt x.name y.name

-- collectionChildren
unfoldable pub collection_children : Text → Text → Steps DavError (List DavFileInfo)
unfolding list_all_objects children_of before_by_name order_by
collection_children bucket prefix = do
  objects ← ask (list_all_objects bucket prefix)
  pure (order_by before_by_name (children_of prefix [] objects))

-- openCollection
unfoldable pub open_collection : Text → Text → Steps DavError DavFile
unfolding stat_collection collection_children
open_collection bucket prefix = do
  stat_collection bucket prefix
  children ← collection_children bucket prefix
  pure (directory children)

unfoldable pub bucket_info : Bucket → DavFileInfo
bucket_info b = record {
  name = b.name;
  size = pos 0;
  mod_time = b.created_at;
  is_dir = true;
  content_type = [];
  etag = [];
}

-- openRootCollection
unfoldable pub open_root_collection : Steps DavError DavFile
unfolding list_buckets bucket_info
open_root_collection = do buckets ← ask list_buckets; pure (directory (map bucket_info buckets))

-- What Readdir returns: infos, io.EOF, "not a directory", or no return at all, where `end` is before
-- `start` and the runtime panics.
pub data ReaddirResult : Type 0 where
  infos : List DavFileInfo → ReaddirResult
  eof not_a_directory panics : ReaddirResult

-- Readdir; `count` and the sum with it are of the type int.
unfoldable pub readdir : ℤ → DavFile → ReaddirResult × DavFile
unfolding add64
readdir count f =
    let size = length f.children in
    let start = f.read_pos in
    let next = add64 (pos start) count in
    let end = if ltb_ℤ (pos 0) count && ltb_ℤ next (pos size) then next else pos size in
    if f.is_dir
    then if leb size start
      then if ltb_ℤ (pos 0) count then (eof, f) else (infos [], f)
      else if ltb_ℤ end (pos start)
      then (panics, f)
      else (
        infos (take (pos_part end - start) (drop start f.children)),
        record f { read_pos = pos_part end },
      )
    else (not_a_directory, f)

-- A reader that asks for `count` infos at a time until io.EOF.
unfoldable pub gather : ReaddirResult → Option (List DavFileInfo) → Option (List DavFileInfo)
gather (infos batch) none = none
gather (infos batch) (some rest) = some (batch ++ rest)
gather eof rest = some []
gather not_a_directory rest = none
gather panics rest = none

unfoldable pub read_batches : ℕ → ℤ → DavFile → Option (List DavFileInfo)
unfolding readdir gather
read_batches zero count f = none
read_batches (suc fuel) count f =
    let rest = read_batches fuel count (readdir count f).1 in gather (readdir count f).0 rest

-- What OpenFile opens: an object to read, a key to write, or a collection.
pub data Opened : Type 0 where
  reader : Text → Text → Object → Opened
  writer : Text → Text → Opened
  collection : DavFile → Opened

unfoldable pub opened_collection : Text → Text → Steps DavError Opened
unfolding open_collection
opened_collection bucket prefix = do file ← open_collection bucket prefix; pure (collection file)

-- OpenFile of a name with a key for writing; the object store is there.
unfoldable pub open_writer : Text → Text → Steps DavError Opened
unfolding check_collection_exists canonical_collection_key
open_writer bucket key = do
  exists ← check_collection_exists bucket (canonical_collection_key key)
  if exists then raise conflict else pure (writer bucket key)

unfoldable pub open_found : Text → Text → Option Object → Steps DavError Opened
unfolding collection_exists opened_collection canonical_collection_key
open_found bucket key (some o) = pure (reader bucket key o)
open_found bucket key none = do
  exists ← collection_exists bucket (canonical_collection_key key)
  if exists then opened_collection bucket (canonical_collection_key key) else raise not_found

unfoldable pub open_reader : Text → Text → Steps DavError Opened
unfolding open_found head_object
open_reader bucket key = optional (ask (head_object bucket key)) >>= open_found bucket key

unfoldable pub open_at : Text → Bool → ParsedPath → Steps DavError Opened
unfolding require_enabled_bucket opened_collection open_writer open_reader open_root_collection
open_at name write_mode root =
    if write_mode then raise forbidden else (do file ← open_root_collection; pure (collection file))
open_at name write_mode (at bucket key) =
    if write_mode && ends_with_byte name b'/' then raise forbidden else (do
      require_enabled_bucket bucket
      if text_eq key [] || ends_with_byte key b'/'
          then opened_collection bucket (canonical_collection_key key)
          else if write_mode
          then open_writer bucket key
          else open_reader bucket key)

-- OpenFile; `write_mode` is whether `flag` has one of the flags for writing.
unfoldable pub open_file : Text → Bool → Steps DavError Opened
unfolding open_at of_result
open_file name write_mode = of_result (parse_path name) >>= open_at name write_mode
