-- ===== src/Dav/CopyMove.antt =====
-- internal/dav/handler.go: COPY and MOVE, which the handler answers itself.
pub mod Atomic
pub mod Keeping
use tg_files.Common.{
  ℕ, Text, codes, Bool, true, false, not, ◌&&◌, ◌||◌, List, [], ◌∷◌, if◌then◌else◌, text_eq, ltb,
  Result, ok, err, ◌==◌,
}
use tg_files.Golang.Strings.{has_prefix, ends_with_byte}
use tg_files.Metadata.Types.{Time}
use tg_files.Metadata.Sql
use tg_files.Metadata.Sql.{DbError, Session, Sql}
use tg_files.Metadata.Objects.{copy_object, move_object}
use tg_files.Metadata.Prefixes.{count_objects, copy_prefix, move_prefix}
use tg_files.Dav.Paths.{DavError, store, ParsedPath, root, at, parse_path, canonical_collection_key}
use tg_files.Dav.Steps.{Steps, pure, raise, telling, ◌>>=◌, ◌>>◌}
use tg_files.Dav.FileSystem.{has_object, check_collection_exists, of_result, max_recursive_objects}

-- parseOverwrite; none of its errors has another status than http.StatusBadRequest.
unfoldable pub parse_overwrite : Text → Result ℕ Bool
parse_overwrite value =
    if text_eq value [] || text_eq value (codes "T")
    then ok true
    else if text_eq value (codes "F")
    then ok false
    else err 400

-- The path of a request or of its Destination, where parsePath's errors are http.StatusBadRequest.
unfoldable pub path_of : Text → Result ℕ ParsedPath
path_of p = elim (parse_path p) [ ok parsed ↦ ok parsed | err e ↦ err 400 ]

-- isSubpath
unfoldable pub is_subpath : Text → Text → Bool
unfolding has_prefix
is_subpath parent child = not (text_eq child parent) && has_prefix child parent

-- http.StatusInternalServerError
unfoldable pub internal : {E : Type 0} → E → ℕ
internal e = 500

-- hasCollection
unfoldable pub has_collection : Text → Text → Steps ℕ Bool
unfolding internal check_collection_exists canonical_collection_key
has_collection bucket key =
    telling internal (check_collection_exists bucket (canonical_collection_key key))

-- destinationKindConflict
unfoldable pub destination_kind_conflict : Text → Text → Bool → Steps ℕ Bool
unfolding has_object has_collection internal
destination_kind_conflict bucket dst_key src_is_collection =
    if src_is_collection
    then telling internal (has_object bucket dst_key)
    else has_collection bucket dst_key

-- writeCopyMoveError: the error that says "already exists" is the one of a destination in the way.
unfoldable pub copy_move_error : DbError → ℕ
copy_move_error Sql.destination_exists = 412
copy_move_error Sql.not_found = 404
copy_move_error e = 500

-- writeCreatedStatus
unfoldable pub created_status : Bool → ℕ
created_status created = if created then 201 else 204

-- A method of the store that copies or moves, and the status that tells of it.
unfoldable pub answered : Sql Bool → Steps ℕ ℕ
unfolding copy_move_error created_status
answered m = telling copy_move_error m >>= λ created. pure (created_status created)

-- Whether the source is a collection: a slash at the end, or no object of that name but a collection.
unfoldable pub source_is_collection : Text → Text → Steps ℕ Bool
unfolding has_object has_collection internal
source_is_collection bucket key = if ends_with_byte key b'/' then pure true else do
  exists ← telling internal (has_object bucket key)
  if exists then pure false else has_collection bucket key

-- The calls of the store at the end of the two parts of handleCopyMove.
unfoldable pub write_collection : Bool → Bool → Time → Text → Text → Text → Steps ℕ ℕ
unfolding answered copy_prefix move_prefix
write_collection move overwrite now bucket src_prefix dst_prefix =
    if move
    then answered (move_prefix bucket src_prefix dst_prefix overwrite now)
    else answered (copy_prefix bucket src_prefix dst_prefix overwrite now)

unfoldable pub write_object : Bool → Bool → Time → Text → Text → Text → Steps ℕ ℕ
unfolding answered copy_object move_object
write_object move overwrite now bucket src_key dst_key =
    if move
    then answered (move_object bucket src_key dst_key overwrite now)
    else answered (copy_object bucket src_key dst_key overwrite now)

-- The part of handleCopyMove behind `if srcIsCollection`.
unfoldable pub copy_move_collection : Bool → Bool → Time → Text → Text → Text → Steps ℕ ℕ
unfolding destination_kind_conflict is_subpath write_collection count_objects internal
    canonical_collection_key
copy_move_collection move overwrite now bucket src_key dst_key = do
  conflict ← destination_kind_conflict bucket dst_key true
  if conflict then raise 412 else do
    let src_prefix = canonical_collection_key src_key
    let dst_prefix = canonical_collection_key dst_key
    if move && text_eq src_prefix dst_prefix || is_subpath src_prefix dst_prefix
        then raise 403
        else do
          count ← telling internal (count_objects bucket src_prefix)
          if count == 0
              then raise 404
              else if ltb max_recursive_objects count
              then raise 500
              else write_collection move overwrite now bucket src_prefix dst_prefix

-- The part of handleCopyMove for a source that is an object.
unfoldable pub copy_move_object : Bool → Bool → Time → Text → Text → Text → Steps ℕ ℕ
unfolding destination_kind_conflict write_object
copy_move_object move overwrite now bucket src_key dst_key = do
  conflict ← destination_kind_conflict bucket dst_key false
  if conflict
      then raise 412
      else if move && text_eq src_key dst_key
      then raise 403
      else write_object move overwrite now bucket src_key dst_key

unfoldable pub copy_move_at : Bool → Bool → Time → ParsedPath → ParsedPath → Steps ℕ ℕ
unfolding source_is_collection copy_move_collection copy_move_object
copy_move_at move overwrite now root dst = raise 403
copy_move_at move overwrite now (at src_bucket src_key) root = raise 403
copy_move_at move overwrite now (at src_bucket src_key) (at dst_bucket dst_key) =
    if text_eq src_key [] || text_eq dst_key [] || not (text_eq src_bucket dst_bucket)
    then raise 403
    else (do
      is_collection ← source_is_collection src_bucket src_key
      if is_collection
          then copy_move_collection move overwrite now src_bucket src_key dst_key
          else copy_move_object move overwrite now src_bucket src_key dst_key)

-- handleCopyMove behind resolveDestination, which made `dst_path` of the Destination header; the
-- value of a failure is its status, and so is the other one.
unfoldable pub handle_copy_move : Bool → Text → Text → Text → Time → Steps ℕ ℕ
unfolding parse_overwrite path_of copy_move_at of_result
handle_copy_move move overwrite_header src_path dst_path now = do
  overwrite ← of_result (parse_overwrite overwrite_header)
  src ← of_result (path_of src_path)
  dst ← of_result (path_of dst_path)
  copy_move_at move overwrite now src dst
