-- ===== src/Dav/Serving.antt =====
-- internal/dav/handler.go: ServeHTTP, which passes on to webdav.Handler what it does not answer.
pub mod Guarded
use tg_files.Common.{
  ℕ, Text, codes, Bool, true, false, not, ◌&&◌, ◌||◌, List, [], ◌∷◌, ◌++◌, Option, none, some,
  if◌then◌else◌, text_eq, Result, ok, err, map,
}
use tg_files.Golang.Strings.{has_prefix, trim_prefix, ends_with_byte, lower_byte, trim, is_space}
use tg_files.Metadata.Types.{Time, Bucket}
use tg_files.Metadata.Sql
use tg_files.Metadata.Sql.{DbError}
use tg_files.Metadata.Buckets.{get_bucket, delete_bucket}
use tg_files.Dav.Paths.{DavError, ParsedPath, root, at, parse_path, trim_slash}
use tg_files.Dav.Steps.{Steps, pure, raise, telling, ◌>>=◌, ◌>>◌}
use tg_files.Dav.FileSystem.{of_result, stat, has_object, DavFileInfo}
use tg_files.Dav.CopyMove.{path_of, internal, has_collection, handle_copy_move}

-- What url.Parse makes of a text.
pub record Url : Type 0 where
  pub scheme : Text
  pub host : Text
  pub path : Text

-- What net/http shows of a request, and url.Parse of its Destination.
pub record DavRequest : Type 0 where
  pub method : Text
  pub url_path : Text
  pub host : Text
  pub basic_auth : Option (Text × Text)
  pub depth : Text
  pub destination : Text
  pub destination_url : Option Url
  pub overwrite : Text

-- Handler, and webdav.Handler as what it does with a request.
pub record Handler : Type 0 where
  pub prefix : Text
  pub creds : List (Text × Text)
  pub forward : DavRequest → Steps ℕ ℕ

unfoldable pub credential_of : Text → List (Text × Text) → Option Text
credential_of user [] = none
credential_of user ((name, secret) ∷ creds) =
    let rest = credential_of user creds in if text_eq name user then some secret else rest

unfoldable pub is_secret : Text → Option Text → Bool
is_secret pass none = false
is_secret pass (some secret) = text_eq secret pass

-- checkBasicAuth
unfoldable pub check_basic_auth : List (Text × Text) → Option (Text × Text) → Bool
unfolding credential_of is_secret
check_basic_auth creds none = false
check_basic_auth creds (some (user, pass)) = is_secret pass (credential_of user creds)

-- requestPath, and the end of resolveDestination, behind the test on the prefix
unfoldable pub below_prefix : Text → Text → Text
unfolding trim_prefix
below_prefix prefix path = codes "/" ++ trim_prefix path prefix

-- resolveDestination, its errors as their statuses
unfoldable pub resolve_url : Text → Text → Option Url → Result ℕ Text
unfolding below_prefix has_prefix
resolve_url prefix host none = err 400
resolve_url prefix host (some u) =
    if not (text_eq u.host []) && not (text_eq u.host host)
    then err 403
    else if not (text_eq u.scheme []) && text_eq u.host []
    then err 400
    else if not (has_prefix u.path prefix)
    then err 400
    else ok (below_prefix prefix u.path)

unfoldable pub resolve_destination : Text → DavRequest → Result ℕ Text
unfolding resolve_url
resolve_destination prefix r =
    if text_eq (trim is_space r.destination) []
    then err 400
    else resolve_url prefix r.host r.destination_url

unfoldable pub copy_move : Bool → Text → DavRequest → Text → Time → Steps ℕ ℕ
unfolding resolve_destination handle_copy_move of_result
copy_move move prefix r src_path now = do
  dst_path ← of_result (resolve_destination prefix r)
  handle_copy_move move r.overwrite src_path dst_path now

-- The status for a bucket that GetBucket does not return.
unfoldable pub bucket_error : DbError → ℕ
bucket_error Sql.not_found = 404
bucket_error e = 500

-- handleOrphanDelete
unfoldable pub handle_orphan_delete : Text → Steps ℕ ℕ
unfolding delete_bucket internal
handle_orphan_delete bucket = telling internal (delete_bucket bucket) >> pure 204

-- The conflicts that PUT and MKCOL have with what is there.
unfoldable pub check_conflict : Text → Text → Text → Steps ℕ Unit
unfolding has_collection has_object internal trim_slash
check_conflict method bucket key =
    if text_eq method (codes "PUT") && not (ends_with_byte key b'/')
    then (do exists ← has_collection bucket key; if exists then raise 409 else pure tt)
    else if text_eq method (codes "MKCOL")
        && not (text_eq key [])
        && not (text_eq (trim_slash key) [])
    then (do
      exists ← telling internal (has_object bucket (trim_slash key))
      if exists then raise 409 else pure tt)
    else pure tt

unfoldable pub dispatch : Handler → DavRequest → Text → Time → Steps ℕ ℕ
unfolding copy_move
dispatch h r dav_path now =
    if text_eq r.method (codes "COPY")
    then copy_move false h.prefix r dav_path now
    else if text_eq r.method (codes "MOVE")
    then copy_move true h.prefix r dav_path now
    else h.forward r

-- A request for a bucket that is there.
unfoldable pub serve_bucket : Handler → DavRequest → Text → Time → Text → Text → Bucket → Steps ℕ ℕ
unfolding handle_orphan_delete check_conflict dispatch
serve_bucket h r dav_path now bucket key record_of =
    if not record_of.enabled
    then if text_eq r.method (codes "DELETE") && text_eq key []
      then handle_orphan_delete bucket
      else raise 403
    else (check_conflict r.method bucket key >> dispatch h r dav_path now)

unfoldable pub serve_parsed : Handler → DavRequest → Text → Time → ParsedPath → Steps ℕ ℕ
unfolding get_bucket bucket_error serve_bucket dispatch
serve_parsed h r dav_path now root = dispatch h r dav_path now
serve_parsed h r dav_path now (at bucket key) =
    if text_eq r.method (codes "MKCOL") && text_eq key []
    then raise 403
    else (telling bucket_error (get_bucket bucket) >>= serve_bucket h r dav_path now bucket key)

-- handleOptions, but for the headers that it writes
unfoldable pub handle_options : Text → Steps ℕ ℕ
unfolding stat
handle_options dav_path s = let (info, s') = stat dav_path s in (ok 200, s')

unfoldable pub is_infinity : Text → Bool
unfolding lower_byte text_eq
is_infinity depth = text_eq (map lower_byte depth) (codes "infinity")

-- PROPFIND without a Depth has the depth 1.
unfoldable pub with_depth : DavRequest → DavRequest
with_depth r =
    if text_eq r.method (codes "PROPFIND") && text_eq r.depth []
    then record r { depth = codes "1" }
    else r

-- ServeHTTP
unfoldable pub serve_http : Handler → DavRequest → Time → Steps ℕ ℕ
unfolding check_basic_auth handle_options is_infinity with_depth below_prefix serve_parsed path_of
    of_result has_prefix
serve_http h r now =
    if not (has_prefix r.url_path h.prefix)
    then raise 404
    else if not (check_basic_auth h.creds r.basic_auth)
    then raise 401
    else if text_eq r.method (codes "OPTIONS")
    then handle_options (below_prefix h.prefix r.url_path)
    else if text_eq r.method (codes "PROPFIND") && is_infinity r.depth
    then raise 403
    else (of_result (path_of (below_prefix h.prefix r.url_path))
        >>= serve_parsed h (with_depth r) (below_prefix h.prefix r.url_path) now)
