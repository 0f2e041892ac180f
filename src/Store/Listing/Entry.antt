-- ===== src/Store/Listing/Entry.antt =====
-- store/store.go: the loop of ListObjects over the objects of a page.
use tg_files.Common.{
  ℕ, ◌+◌, Text, Bool, List, [], ◌∷◌, ◌++◌, Option, none, some, if◌then◌else◌, text_eq, length, leb,
}
use tg_files.Golang.Int64.{ℤ}
use tg_files.Golang.Strings.{trim_prefix, cut_before}
use tg_files.Metadata.Types.{Time, Object}
use tg_files.Store.UploadStrategy.{one_of}

pub record ObjectInfo : Type 0 where
  pub bucket : Text
  pub key : Text
  pub size : ℤ
  pub content_type : Text
  pub etag : Text
  pub sha256 : Text
  pub last_modified : Time

pub record ListObjectsInput : Type 0 where
  pub bucket : Text
  pub prefix : Text
  pub delimiter : Text
  pub after_key : Text
  pub limit : ℤ

pub record ListObjectsResult : Type 0 where
  pub objects : List ObjectInfo
  pub common_prefixes : List Text
  pub next_continuation_after : Text
  pub is_truncated : Bool

-- The variables of the loop; the set of the prefixes seen is a list.
pub record Listing : Type 0 where
  pub objects : List ObjectInfo
  pub common_prefixes : List Text
  pub seen_prefixes : List Text
  pub next_continuation_after : Text
  pub after_key : Text

-- objectInfoFromMetadata
unfoldable pub object_info : Object → ObjectInfo
object_info o = record {
  bucket = o.bucket;
  key = o.key;
  size = o.size;
  content_type = o.content_type;
  etag = o.etag;
  sha256 = o.sha256;
  last_modified = o.last_modified;
}

abbrev pub emitted : Listing → ℕ
emitted st = length st.objects + length st.common_prefixes

-- The prefix that a key is grouped under, if the delimiter stands behind input.Prefix.
unfoldable pub group_of : ListObjectsInput → Text → Option Text
unfolding trim_prefix cut_before
group_of input key = elim (cut_before (trim_prefix key input.prefix) input.delimiter) [
  | none ↦ none
  | some head ↦ some (input.prefix ++ head ++ input.delimiter)
]

-- The same in ListObjects, where an empty delimiter groups nothing.
unfoldable pub common_prefix : ListObjectsInput → Text → Option Text
unfolding text_eq group_of
common_prefix input key = if text_eq input.delimiter [] then none else group_of input key

-- How the round for one object ends: the next object, `pageFull`, or a prefix that is the last entry.
pub data Pass : Type 0 where
  go_on : Listing → Pass
  page_full : Listing → Pass
  filled : Listing → Text → Pass

abbrev pub move_to : Text → Listing → Listing
move_to key st = record st { next_continuation_after = key; after_key = key }

abbrev pub add_object : Object → Listing → Listing
add_object object st =
    move_to object.key (record st { objects = st.objects ++ object_info object ∷ [] })

abbrev pub add_prefix : Text → Text → Listing → Listing
add_prefix prefix key st = move_to key (record st {
  common_prefixes = st.common_prefixes ++ prefix ∷ [];
  seen_prefixes = prefix ∷ st.seen_prefixes;
})

-- The body of the loop over a page, for an object of the group.
unfoldable pub visit_group : ℕ → Object → Option Text → Listing → Pass
unfolding one_of object_info
visit_group limit object none st =
    if leb limit (emitted st)
    then page_full st
    else if leb limit (emitted (add_object object st))
    then page_full (add_object object st)
    else go_on (add_object object st)
visit_group limit object (some prefix) st =
    if one_of prefix st.seen_prefixes
    then go_on (move_to object.key st)
    else if leb limit (emitted st)
    then page_full st
    else if leb limit (emitted (add_prefix prefix object.key st))
    then filled (add_prefix prefix object.key st) prefix
    else go_on (add_prefix prefix object.key st)

unfoldable pub visit : ℕ → ListObjectsInput → Object → Listing → Pass
unfolding visit_group common_prefix
visit limit input object st = visit_group limit object (common_prefix input object.key) st

-- A round that goes on, and what follows it.
unfoldable pub and_then : Pass → (Listing → Pass) → Pass
and_then (go_on st) f = f st
and_then (page_full st) f = page_full st
and_then (filled st prefix) f = filled st prefix

-- `for _, object := range objects`
unfoldable pub walk : ℕ → ListObjectsInput → List Object → Listing → Pass
unfolding visit and_then
walk limit input [] st = go_on st
walk limit input (object ∷ objects) st =
    and_then (visit limit input object st) (walk limit input objects)
