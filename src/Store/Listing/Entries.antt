-- ===== src/Store/Listing/Entries.antt =====
-- What a listing holds: how many entries, and, without a delimiter, which objects.
use tg_files.Common.{
  ℕ, ◌≤◌, ◌+◌, Text, Bool, true, List, [], ◌∷◌, Option, none, some, ◌≡◌, refl, arith, inl, inr, ◌∙◌,
  sym, ok, err, Result, length, length-append, Bool-cases, text_eq,
}
use tg_files.Metadata.Types.{Object, Db}
use tg_files.Metadata.Sql.{Session, DbError}
use tg_files.Metadata.Sql.Reads.{Reads}
use tg_files.Metadata.Table.{Unique}
use tg_files.Metadata.Statements.{same_object, object_key}
use tg_files.Store.Multipart.{ObjectStore, startup_names}
use tg_files.Store.UploadStrategy.{one_of}
use tg_files.Store.Listing.Entry.{
  ListObjectsInput, ListObjectsResult, Listing, Pass, go_on, page_full, filled, walk, visit,
  visit_group, and_then, emitted, common_prefix, object_info,
}
use tg_files.Store.Listing.{list_objects, effective_limit, start_listing, meta_result, Failure}
use tg_files.Store.Listing.Pages.{behind}
use tg_files.Store.Listing.Loop.{settled}
use tg_files.Store.Listing.Complete.{listing, closed, list_objects-listing}

-- The listing that a pass ends with.
abbrev of_pass : Pass → Listing
of_pass (go_on st) = st
of_pass (page_full st) = st
of_pass (filled st prefix) = st

visit_group-le :
    (limit : ℕ) (object : Object) (group : Option Text) (st : Listing)
    → emitted st ≤ limit
    → emitted (of_pass (visit_group limit object group st)) ≤ limit
unfolding visit_group object_info
visit_group-le limit object none st h =
    ground (arith, length-append st.objects (object_info object ∷ []))
visit_group-le limit object (some prefix) st h =
    ground (arith, length-append st.common_prefixes (prefix ∷ []))

and_then-le :
    (limit : ℕ) (p : Pass) (f : Listing → Pass)
    → ((st : Listing) → emitted st ≤ limit → emitted (of_pass (f st)) ≤ limit)
    → emitted (of_pass p) ≤ limit
    → emitted (of_pass (and_then p f)) ≤ limit
unfolding and_then
and_then-le limit (go_on st) f keep h = keep st h
and_then-le limit (page_full st) f keep h = h
and_then-le limit (filled st prefix) f keep h = h

walk-le :
    (limit : ℕ) (input : ListObjectsInput) (objects : List Object) (st : Listing)
    → emitted st ≤ limit
    → emitted (of_pass (walk limit input objects st)) ≤ limit
unfolding walk visit
walk-le limit input [] st h = h
walk-le limit input (o ∷ objects) st h =
    and_then-le limit (visit_group limit o (common_prefix input o.key) st)
      (walk limit input objects) (λ u k. walk-le limit input objects u k)
      (visit_group-le limit o (common_prefix input o.key) st h)

settled-emitted :
    (input : ListObjectsInput) (db : Db) (p : Pass)
    → emitted (settled input db p).0 ≡ emitted (of_pass p)
unfolding settled
settled-emitted input db (go_on st) = refl
settled-emitted input db (page_full st) = refl
settled-emitted input db (filled st prefix) = refl

-- How many entries a result has.
abbrev pub entries : ListObjectsResult → ℕ
entries result = length result.objects + length result.common_prefixes

closed-entries :
    (input : ListObjectsInput) (db : Db) (v : Listing × Bool)
    → entries (closed input db v) ≡ emitted v.0
unfolding closed
closed-entries input db (st, more) = elim (Bool-cases (text_eq st.next_continuation_after [])) [
  | inl e ↦ rw e refl
  | inr e ↦ rw e refl
]

listing-le :
    (input : ListObjectsInput) (db : Db) → entries (listing input db) ≤ effective_limit input.limit
unfolding listing
listing-le input db =
    let limit = effective_limit input.limit in
    let p = walk limit input (behind input input.after_key db) (start_listing input.after_key) in
    rw (closed-entries input db (settled input db p), settled-emitted input db p)
      (walk-le limit input (behind input input.after_key db) (start_listing input.after_key)
        (omega arith))

list_objects_ok :
    (result value : ListObjectsResult) (s s' : ObjectStore)
    (out : Result DbError ListObjectsResult × Session)
    → ◌≡◌ {A = Option (Result Failure ListObjectsResult × ObjectStore)}
        (some (ok result, s'))
        (some (meta_result out.0, record s { session = out.1 }))
    → Reads s.session value out
    → result ≡ value
list_objects_ok result value s s' (ok v, t) e (same, fewer, inl x) = ground arith
list_objects_ok result value s s' (ok v, t) e (same, fewer, inr (x, h)) = cc
list_objects_ok result value s s' (err v, t) e r = cc

-- A result that ListObjects returns, of a served bucket and on a table of objects with unique keys,
-- has at most as many objects and common prefixes as the limit asks for, where a negative limit is
-- 1000.
pub list_objects-le :
    (input : ListObjectsInput) (s s' : ObjectStore) (result : ListObjectsResult)
    → one_of input.bucket (startup_names s) ≡ true
    → Unique object_key same_object s.session.db.objects
    → list_objects input s ≡ some (ok result, s')
    → entries result ≤ effective_limit input.limit
list_objects-le input s s' result served unique e =
    let (out, returns, reads) = list_objects-listing input s served unique in
    let same =
      list_objects_ok result (listing input s.session.db) s s' out (sym e ∙ returns) reads in
    rw same (listing-le input s.session.db)
