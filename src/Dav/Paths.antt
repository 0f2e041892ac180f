-- ===== src/Dav/Paths.antt =====
-- internal/dav/fs.go: what a path of a request names.
pub mod Proper
use tg_files.Common.{
  ℕ, ◌+◌, ◌*◌, Text, codes, Bool, true, false, not, ◌&&◌, ◌||◌, List, [], ◌∷◌, ◌++◌, Option, none,
  some, if◌then◌else◌, text_eq, Result, ok, err, ◌==◌, length, take, ◌-◌,
}
use tg_files.Golang.Strings.{cut, ends_with_byte}
use tg_files.Golang.Splitting.{split, join}
use tg_files.S3Api.Encoding.{from_hex}
use tg_files.Metadata.Sql.{DbError}

pub data DavError : Type 0 where
  -- ErrBadRequest, ErrConflict, ErrNotFound, webdav.ErrForbidden, more than maxRecursiveObjects
  bad_request conflict not_found forbidden too_many : DavError
  -- an error of the metadata store
  store : DbError → DavError

-- url.PathUnescape: a percent sign has two digits behind it.
unfoldable pub unescaped : ℕ → Option ℕ → Option ℕ → Option Text → Option Text
unescaped c none lo rest = none
unescaped c (some hi) none rest = none
unescaped c (some hi) (some lo) none = none
unescaped c (some hi) (some lo) (some s) = some ((hi * 16 + lo) ∷ s)

unfoldable pub prepend : ℕ → Option Text → Option Text
prepend c none = none
prepend c (some s) = some (c ∷ s)

unfoldable pub path_unescape : Text → Option Text
unfolding unescaped prepend from_hex
path_unescape [] = some []
path_unescape (c ∷ []) = if c == b'%' then none else some (c ∷ [])
path_unescape (c ∷ d ∷ []) = if c == b'%' || d == b'%' then none else some (c ∷ d ∷ [])
path_unescape (c ∷ d ∷ e ∷ s) = elim (c == b'%') [
  | true ↦ unescaped c (from_hex d) (from_hex e) (path_unescape s)
  | false ↦ prepend c (path_unescape (d ∷ e ∷ s))
]

unfoldable pub drop_last : List Text → List Text
drop_last [] = []
drop_last (w ∷ []) = []
drop_last (w ∷ v ∷ ws) = w ∷ drop_last (v ∷ ws)

unfoldable pub clean_step : List Text → Text → List Text
unfolding text_eq drop_last
clean_step kept element =
    if text_eq element [] || text_eq element (codes ".")
    then kept
    else if text_eq element (codes "..")
    then drop_last kept
    else kept ++ element ∷ []

-- path.Clean of a path from the root on: the elements that are left.
unfoldable pub clean_elements : List Text → List Text → List Text
unfolding clean_step
clean_elements kept [] = kept
clean_elements kept (element ∷ elements) = clean_elements (clean_step kept element) elements

pub data ParsedPath : Type 0 where
  root : ParsedPath
  at : Text → Text → ParsedPath

-- The key keeps a slash at the end of the path.
unfoldable pub with_slash : Text → Text → Text
unfolding ends_with_byte text_eq
with_slash decoded key =
    if ends_with_byte decoded b'/' && not (text_eq key []) && not (ends_with_byte key b'/')
    then key ++ codes "/"
    else key

-- What strings.SplitN leaves of a name with no slash, or with one.
unfoldable pub parse_cut : Text → Text → Option (Text × Text) → ParsedPath
unfolding with_slash
parse_cut decoded name none = at name []
parse_cut decoded name (some ([], key)) = root
parse_cut decoded name (some (c ∷ bucket, key)) = at (c ∷ bucket) (with_slash decoded key)

unfoldable pub parse_cleaned : Text → Text → ParsedPath
unfolding cut parse_cut
parse_cleaned decoded [] = root
parse_cleaned decoded (c ∷ cleaned) = parse_cut decoded (c ∷ cleaned) (cut (c ∷ cleaned) b'/')

-- parsePath; the cleaned path without its first slash is the text of the elements.
unfoldable pub parse_path : Text → Result DavError ParsedPath
unfolding path_unescape clean_elements split join parse_cleaned
parse_path p = elim (path_unescape p) [
  | none ↦ err bad_request
  | some decoded ↦
      ok (parse_cleaned decoded (join (clean_elements [] (split decoded b'/')) (codes "/")))
]

-- canonicalCollectionKey
unfoldable pub canonical_collection_key : Text → Text
unfolding ends_with_byte
canonical_collection_key key =
    if text_eq key [] || ends_with_byte key b'/' then key else key ++ codes "/"

-- strings.TrimSuffix(key, "/")
unfoldable pub trim_slash : Text → Text
unfolding ends_with_byte
trim_slash key = if ends_with_byte key b'/' then take (length key - 1) key else key

-- The text up to the last slash, that slash included: trimmed[:strings.LastIndex(trimmed, "/")+1].
unfoldable pub up_to_last_slash : Text → Text
up_to_last_slash [] = []
up_to_last_slash (c ∷ s) = elim (up_to_last_slash s) [
  | [] ↦ if c == b'/' then c ∷ [] else []
  | d ∷ t ↦ c ∷ d ∷ t
]

-- parentPrefix
unfoldable pub parent_prefix : Text → Text
unfolding trim_slash up_to_last_slash
parent_prefix key = up_to_last_slash (trim_slash key)
