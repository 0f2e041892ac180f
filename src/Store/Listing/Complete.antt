-- ===== src/Store/Listing/Complete.antt =====
-- ListObjects as a whole: it returns, and what it returns is the listing of one walk.
use tg_files.Common.{
  ℕ, zero, suc, ◌≤◌, ◌<◌, Text, Bool, true, false, ◌||◌, List, [], ◌∷◌, Option, none, some, ◌≡◌,
  refl, arith, inl, inr, take, ap, ◌∙◌, sym, ok, ok_injective, err, Result, length, ltb, leb,
  Bool-cases, if_true, if◌then◌else◌, subst, select, map, text_eq,
}
use tg_files.Metadata.Types.{Object, ObjectRow, Db}
use tg_files.Metadata.Like.{prefix_pattern}
use tg_files.Metadata.Sql.{Session, DbError}
use tg_files.Metadata.Sql.Reads.{Reads, Reads-behind}
use tg_files.Metadata.Table.{Unique}
use tg_files.Metadata.Statements.{same_object, object_key, order_by, sorted_insert, key_before}
use tg_files.Metadata.Objects.Pages.{rows_behind, is_behind}
use tg_files.Store.Multipart.{ObjectStore, head_bucket, startup_names}
use tg_files.Store.UploadStrategy.{one_of}
use tg_files.Store.Listing.Entry.{
  ListObjectsInput, ListObjectsResult, Listing, page_full, walk, visit, visit_group, and_then,
  emitted, common_prefix,
}
use tg_files.Store.Listing.{
  next_page, list_loop, list_objects, list_objects_with, close_listing, effective_limit,
  start_listing, result_of, probed, after_loop, meta_result,
}
use tg_files.Store.Listing.Pages.{behind, next_page-Reads}
use tg_files.Store.Listing.Loop.{settled, one_pass, list_loop-Lists}

module _ (bucket pattern after : Text) where
  length-sorted_insert :
      (r : ObjectRow) (rows : List ObjectRow)
      → length (sorted_insert key_before r rows) ≡ suc (length rows)
  unfolding sorted_insert
  length-sorted_insert r [] = refl
  length-sorted_insert r (x ∷ rows) = ground (arith, length-sorted_insert r rows)

  length-order_by :
      (rows : List ObjectRow)
      → length (order_by key_before (select (is_behind bucket pattern after) rows)) ≤ length rows
  unfolding order_by
  length-order_by [] = omega arith
  length-order_by (r ∷ rows) = elim (Bool-cases (is_behind bucket pattern after r)) [
    | inl mine ↦ rw mine (
        omega (
          arith,
          length-order_by rows,
          length-sorted_insert r
              (order_by key_before (select (is_behind bucket pattern after) rows)),
        ))
    | inr other ↦ rw other (omega (arith, length-order_by rows))
  ]

length-map : {A B : Type 0} (f : A → B) (xs : List A) → length (map f xs) ≡ length xs
length-map f [] = refl
length-map f (x ∷ xs) = ap suc (length-map f xs)

pub length-behind :
    (input : ListObjectsInput) (after : Text) (db : Db)
    → length (behind input after db) ≤ length db.objects
unfolding behind rows_behind
length-behind input after db = omega (
  arith,
  length-map _ (rows_behind input.bucket (prefix_pattern input.prefix) after db),
  length-order_by input.bucket (prefix_pattern input.prefix) after db.objects,
)

visit_group-no_room :
    (limit : ℕ) (object : Object) (group : Option Text) (after : Text)
    → leb limit 0 ≡ true
    → visit_group limit object group (start_listing after) ≡ page_full (start_listing after)
unfolding visit_group one_of
visit_group-no_room limit object none after h = if_true _ _ h
visit_group-no_room limit object (some prefix) after h = if_true _ _ h

-- Without a place for an entry the walk ends where it starts.
pub walk-no_room :
    (limit : ℕ) (input : ListObjectsInput) (after : Text) (objects : List Object) (db : Db)
    → leb limit 0 ≡ true
    → settled input db (walk limit input objects (start_listing after))
      ≡ (start_listing after, false)
unfolding walk visit settled
walk-no_room limit input after [] db h = refl
walk-no_room limit input after (o ∷ objects) db h =
    rw (visit_group-no_room limit o (common_prefix input o.key) after h) (unfold and_then in refl)

-- Is there an object behind the last one that the listing passed?
abbrev pub is_truncated : ListObjectsInput → Db → Listing × Bool → Bool
is_truncated input db (st, more) =
    more || ltb 0 (length (behind input st.next_continuation_after db))

-- The result for a listing of the walk.
unfoldable pub closed : ListObjectsInput → Db → Listing × Bool → ListObjectsResult
unfolding text_eq behind
closed input db (st, more) =
    if text_eq st.next_continuation_after []
    then result_of st false
    else result_of st (is_truncated input db (st, more))

-- ListObjects as one walk over all objects behind the cursor, with no pages.
unfoldable pub listing : ListObjectsInput → Db → ListObjectsResult
unfolding closed settled walk behind effective_limit
listing input db = closed input db (
    settled input db (
      walk (effective_limit input.limit) input (behind input input.after_key db)
        (start_listing input.after_key)))

some_left : (objects : List Object) → ltb 0 (length (take 1 objects)) ≡ ltb 0 (length objects)
some_left [] = refl
some_left (o ∷ objects) = ground arith

probe-Reads :
    (input : ListObjectsInput) (st : Listing) (s : Session)
    (page : Result DbError (List Object) × Session)
    → Reads s (take 1 (behind input st.next_continuation_after s.db)) page
    → Reads s (result_of st (is_truncated input s.db (st, false))) (probed st page.0, page.1)
unfolding probed
probe-Reads input st s (ok objects, s') (same, fewer, inl e) = (
  same,
  fewer,
  inl (
      ap (λ (l : List Object). ok (result_of st (ltb 0 (length l)))) (ok_injective e)
      ∙ ap (λ b. ok (result_of st b)) (some_left (behind input st.next_continuation_after s.db))),
)
probe-Reads input st s (ok objects, s') (same, fewer, inr (e, h)) = cc
probe-Reads input st s (err e, s') (same, fewer, inl x) = cc
probe-Reads input st s (err e, s') (same, fewer, inr (x, h)) = (same, fewer, inr (cc, h))

close_listing-Reads :
    (input : ListObjectsInput) (st : Listing) (more : Bool) (s : Session)
    → Reads s (closed input s.db (st, more)) (close_listing input st more s)
unfolding close_listing closed
close_listing-Reads input st true s = elim (Bool-cases (text_eq st.next_continuation_after [])) [
  | inl none_passed ↦ rw none_passed (refl, omega arith, inl refl)
  | inr passed ↦ rw passed (refl, omega arith, inl refl)
]
close_listing-Reads input st false s = elim (Bool-cases (text_eq st.next_continuation_after [])) [
  | inl none_passed ↦ rw none_passed (refl, omega arith, inl refl)
  | inr passed ↦ rw passed (
      probe-Reads input st s (next_page input st.next_continuation_after 1 s)
        (next_page-Reads input st.next_continuation_after 1 s (omega arith)))
]

module _ (input : ListObjectsInput) (s : Session) where
  -- What ListObjects has to return on the session.
  abbrev Answers : Option (Result DbError ListObjectsResult × Session) → Type 0
  Answers result =
      (out : Result DbError ListObjectsResult × Session) × (result ≡ some out)
      × Reads s (listing input s.db) out

  after_loop-Answers :
      (v : Listing × Bool)
      → closed input s.db v ≡ listing input s.db
      → (out : Result DbError (Listing × Bool) × Session) → Reads s v out
      → Answers (after_loop input (some out))
  unfolding after_loop
  after_loop-Answers v is_listing (ok w, s') (same, fewer, inl e) = (
    close_listing input w.0 w.1 s',
    refl,
    Reads-behind s s' _ _ same fewer (
        subst (λ (r : ListObjectsResult). Reads s' r (close_listing input w.0 w.1 s'))
          (ap (λ d. closed input d w) same ∙ ap (closed input s.db) (ok_injective e) ∙ is_listing)
          (close_listing-Reads input w.0 w.1 s')),
  )
  after_loop-Answers v is_listing (ok w, s') (same, fewer, inr (e, h)) = cc
  after_loop-Answers v is_listing (err e, s') (same, fewer, inl x) = cc
  after_loop-Answers v is_listing (err e, s') (same, fewer, inr (x, h)) =
      ((err e, s'), refl, (same, fewer, inr (cc, h)))

  list_loop-no_room :
      (fuel limit : ℕ) (st : Listing)
      → 0 < fuel
      → leb limit (emitted st) ≡ true
      → list_loop fuel limit input st s ≡ some (ok (st, false), s)
  unfolding list_loop
  list_loop-no_room zero limit st h full = elim h [ ]
  list_loop-no_room (suc fuel) limit st h full = if_true _ _ full

  list_objects_with-Answers :
      (fuel : ℕ)
      → Unique object_key same_object s.db.objects
      → length s.db.objects < fuel
      → Answers (list_objects_with fuel input s)
  unfolding list_objects_with
  list_objects_with-Answers fuel unique h =
      let limit = effective_limit input.limit in
      let start = start_listing input.after_key in
      elim (Bool-cases (leb limit 0)) [
        | inl empty ↦ rw (list_loop-no_room fuel limit start (omega arith) empty) (
            after_loop-Answers (start, false)
              (unfold listing in
                ap (closed input s.db) (
                  sym (
                    walk-no_room limit input input.after_key (behind input input.after_key s.db)
                      s.db empty)))
              (ok (start, false), s) (refl, omega arith, inl refl))
        | inr room ↦
            let (out, returns, reads) =
              list_loop-Lists fuel limit input start s unique room
                (omega (arith, length-behind input input.after_key s.db)) in
            rw returns
              (after_loop-Answers (one_pass limit input start s) (unfold listing in refl) out reads)
      ]

-- ListObjects of a served bucket, on a table of objects with unique keys, always returns and leaves
-- the tables as they were: its result is the listing of one walk over all objects behind the cursor,
-- whatever pages it asks for, or, if the engine refuses a statement, the engine's error.
pub list_objects-listing :
    (input : ListObjectsInput) (s : ObjectStore)
    → one_of input.bucket (startup_names s) ≡ true
    → Unique object_key same_object s.session.db.objects
    → (out : Result DbError ListObjectsResult × Session) × (list_objects input s
        ≡ some (meta_result out.0, record s { session = out.1 }))
      × Reads s.session (listing input s.session.db) out
unfolding list_objects head_bucket
list_objects-listing input s served unique =
    let (out, returns, reads) =
      list_objects_with-Answers input s.session (suc (length s.session.db.objects)) unique
        (omega arith) in
    (out, rw (served, returns, list_objects, head_bucket) refl, reads)
