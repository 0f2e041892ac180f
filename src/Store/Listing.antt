-- ===== src/Store/Listing.antt =====
-- store/store.go: ListObjects, with its groups of keys up to a delimiter, and
-- advanceContinuationPastPrefix. Both loops take fuel; `none` means that it ran out.
pub mod Entry
pub mod Pages
pub mod Passing
pub mod Walking
pub mod Loop
pub mod Complete
pub mod Entries
pub mod Plain
pub mod Continued
mod Tests
use tg_files.Common.{
  ℕ, zero, suc, ◌+◌, ◌-◌, ◌*◌, Text, Bool, true, false, List, [], ◌∷◌, ◌++◌, Option, none, some,
  if◌then◌else◌, text_eq, Result, ok, err, length, leb, ltb,
}
use tg_files.Golang.Int64.{ℤ, pos, pos_part, ltb_ℤ, wrap64}
use tg_files.Golang.Strings.{trim_prefix, cut_before}
use tg_files.Metadata.Types.{Time, Object}
use tg_files.Metadata.Sql.{DbError, Session}
use tg_files.Metadata.Objects
use tg_files.Store.Types.{Failure, meta}
use tg_files.Store.UploadStrategy.{one_of}
use tg_files.Store.Multipart.{ObjectStore, head_bucket}
use tg_files.Store.Listing.Entry.{
  ObjectInfo, ListObjectsInput, ListObjectsResult, Listing, object_info, emitted, group_of,
  common_prefix, Pass, go_on, page_full, filled, move_to, add_object, add_prefix, visit_group,
  visit, and_then, walk,
}

-- remaining*4 + 1, which wraps around at 64 bits, and at least 2
unfoldable pub query_limit : ℕ → ℕ
unfolding wrap64
query_limit remaining =
    let n = wrap64 (pos (remaining * 4 + 1)) in if ltb_ℤ n (pos 2) then 2 else pos_part n

-- s.meta.ListObjects behind a cursor
unfoldable pub next_page :
    ListObjectsInput → Text → ℕ → Session → Result DbError (List Object) × Session
unfolding Objects.list_objects
next_page input after_key limit = Objects.list_objects (record {
  bucket = input.bucket;
  prefix = input.prefix;
  after_key = after_key;
  limit = pos limit;
})

-- The loop over a page of advanceContinuationPastPrefix: the cursor, and whether an object of
-- another group stopped it.
unfoldable pub pass_prefix : ListObjectsInput → Text → List Object → Text → Text × Bool
unfolding group_of text_eq
pass_prefix input prefix [] cursor = (cursor, false)
pass_prefix input prefix (object ∷ objects) cursor = elim (group_of input object.key) [
  | none ↦ (cursor, true)
  | some group ↦ elim (text_eq group prefix) [
    | true ↦ pass_prefix input prefix objects object.key
    | false ↦ (cursor, true)
  ]
]

abbrev pub Passed : Type 0
Passed = Option (Result DbError (Text × Bool) × Session)

-- A round of the loop, on the answer of the metadata store; `continue` is the next round.
unfoldable pub advance_page :
    ListObjectsInput
    → Text
    → Text
    → (Text → Session → Passed)
    → Result DbError (List Object)
    → Session
    → Passed
unfolding pass_prefix
advance_page input prefix cursor continue (err e) s = some (err e, s)
advance_page input prefix cursor continue (ok []) s = some (ok (cursor, false), s)
advance_page input prefix cursor continue (ok (object ∷ objects)) s =
    let passed = pass_prefix input prefix (object ∷ objects) cursor in
    if passed.1
    then some (ok passed, s)
    else if ltb (length (object ∷ objects)) 32
    then some (ok passed, s)
    else continue passed.0 s

unfoldable pub advance_continuation_past_prefix :
    ℕ → ListObjectsInput → Text → Text → Session → Passed
unfolding next_page advance_page
advance_continuation_past_prefix zero input prefix cursor s = none
advance_continuation_past_prefix (suc fuel) input prefix cursor s =
    let (r, s') = next_page input cursor 32 s in
    advance_page input prefix cursor (advance_continuation_past_prefix fuel input prefix) r s'

-- What ListObjects does behind the break at a last entry that is a prefix.
abbrev pub Listed : Type 0
Listed = Option (Result DbError (Listing × Bool) × Session)

unfoldable pub settle_prefix : Listing → Passed → Listed
settle_prefix st none = none
settle_prefix st (some (err e, s)) = some (err e, s)
settle_prefix st (some (ok (last, more), s)) = some (ok (move_to last st, more), s)

-- What follows a page of a size: a break, or the next round.
unfoldable pub after_page :
    Bool → (Text → Text → Session → Passed) → (Listing → Session → Listed) → Pass → Session → Listed
unfolding settle_prefix
after_page short advance continue (page_full st) s = some (ok (st, false), s)
after_page short advance continue (filled st prefix) s =
    settle_prefix st (advance prefix st.after_key s)
after_page short advance continue (go_on st) s =
    if short then some (ok (st, false), s) else continue st s

-- A round of the outer loop, on the answer of the metadata store.
unfoldable pub list_page :
    ℕ
    → ListObjectsInput
    → ℕ
    → (Text → Text → Session → Passed)
    → (Listing → Session → Listed)
    → Listing
    → Result DbError (List Object)
    → Session
    → Listed
unfolding walk after_page
list_page limit input size advance continue st (err e) s = some (err e, s)
list_page limit input size advance continue st (ok []) s = some (ok (st, false), s)
list_page limit input size advance continue st (ok (object ∷ objects)) s =
    after_page (ltb (length (object ∷ objects)) size) advance continue
      (walk limit input (object ∷ objects) st) s

-- The outer loop: the listing, and `truncated` so far.
unfoldable pub list_loop : ℕ → ℕ → ListObjectsInput → Listing → Session → Listed
unfolding next_page list_page query_limit advance_continuation_past_prefix
list_loop zero limit input st s = none
list_loop (suc fuel) limit input st s =
    let size = query_limit (limit - emitted st) in
    let (r, s') = next_page input st.after_key size s in
    if leb limit (emitted st)
    then some (ok (st, false), s)
    else list_page limit input size (advance_continuation_past_prefix (suc fuel) input)
        (list_loop fuel limit input) st r s'

abbrev pub result_of : Listing → Bool → ListObjectsResult
result_of st truncated = record {
  objects = st.objects;
  common_prefixes = st.common_prefixes;
  next_continuation_after = st.next_continuation_after;
  is_truncated = truncated;
}

unfoldable pub probed : Listing → Result DbError (List Object) → Result DbError ListObjectsResult
probed st (err e) = err e
probed st (ok objects) = ok (result_of st (ltb 0 (length objects)))

-- The end of ListObjects: is there an object behind the last one that was passed?
unfoldable pub close_listing :
    ListObjectsInput → Listing → Bool → Session → Result DbError ListObjectsResult × Session
unfolding text_eq next_page probed
close_listing input st truncated s =
    if text_eq st.next_continuation_after []
    then (ok (result_of st false), s)
    else if truncated
    then (ok (result_of st true), s)
    else let (r, s') = next_page input st.next_continuation_after 1 s in (probed st r, s')

abbrev pub start_listing : Text → Listing
start_listing after_key = record {
  objects = [];
  common_prefixes = [];
  seen_prefixes = [];
  next_continuation_after = [];
  after_key = after_key;
}

-- input.Limit, where a negative one is 1000
unfoldable pub effective_limit : ℤ → ℕ
effective_limit limit = if ltb_ℤ limit (pos 0) then 1000 else pos_part limit

abbrev pub meta_result : {A : Type 0} → Result DbError A → Result Failure A
meta_result (err e) = err (meta e)
meta_result (ok a) = ok a

-- What follows the outer loop.
unfoldable pub after_loop :
    ListObjectsInput → Listed → Option (Result DbError ListObjectsResult × Session)
unfolding close_listing
after_loop input none = none
after_loop input (some (err e, s)) = some (err e, s)
after_loop input (some (ok (st, truncated), s)) = some (close_listing input st truncated s)

unfoldable pub list_objects_with :
    ℕ → ListObjectsInput → Session → Option (Result DbError ListObjectsResult × Session)
unfolding list_loop after_loop effective_limit
list_objects_with fuel input s =
    after_loop input
      (list_loop fuel (effective_limit input.limit) input (start_listing input.after_key) s)

unfoldable pub list_objects :
    ListObjectsInput → ObjectStore → Option (Result Failure ListObjectsResult × ObjectStore)
unfolding head_bucket list_objects_with
list_objects input s = elim (head_bucket input.bucket s) [
  | err e ↦ some (err e, s)
  | ok _ ↦ elim (list_objects_with (suc (length s.session.db.objects)) input s.session) [
    | none ↦ none
    | some (r, session) ↦ some (meta_result r, record s { session = session })
  ]
]
