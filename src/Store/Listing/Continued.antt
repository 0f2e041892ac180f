-- ===== src/Store/Listing/Continued.antt =====
-- ListObjects on a session whose engine refuses nothing: one listing, and a listing that is continued.
use tg_files.Common.{
  ℕ, zero, suc, ◌≤◌, ◌<◌, ◌+◌, Text, Bool, true, List, [], ◌∷◌, ◌++◌, Option, some, ◌≡◌, refl,
  arith, inl, inr, take, drop, ap, ◌∙◌, sym, ok, Result, length, length-drop, false≢true, map,
  text_eq,
}
use mathlib.Core.List.{map-append}
use tg_files.Golang.Int64.{pos}
use tg_files.Metadata.Types.{Object, Db}
use tg_files.Metadata.Sql.{Session, DbError}
use tg_files.Metadata.Sql.Reads.{Reads}
use tg_files.Metadata.Table.{Unique}
use tg_files.Metadata.Statements.{same_object, object_key}
use tg_files.Store.Types.{Failure}
use tg_files.Store.Multipart.{ObjectStore, startup_names}
use tg_files.Store.UploadStrategy.{one_of}
use tg_files.Store.Listing.Entry.{ListObjectsInput, ListObjectsResult, object_info}
use tg_files.Store.Listing.{list_objects, effective_limit, meta_result}
use tg_files.Store.Listing.Pages.{behind, behind-page}
use tg_files.Store.Listing.Complete.{listing, list_objects-listing}
use tg_files.Store.Listing.Plain.{
  result_with, leaves, last_key, last_key-last_of, leaves-empty, take-nil, listing-plain,
}

no_more : (l k : List Bool) → length l ≤ length k → k ≡ [] → l ≡ k
no_more [] k h e = sym e
no_more (x ∷ l) k h e = absurd (omega (arith, ap length e))

calm_read :
    (s : ObjectStore) (value : ListObjectsResult) (out : Result DbError ListObjectsResult × Session)
    → s.session.faults ≡ []
    → Reads s.session value out
    → ◌≡◌ {A = Result Failure ListObjectsResult × ObjectStore}
        (meta_result out.0, record s { session = out.1 })
        (ok value, s)
calm_read s value (r, t) calm (same, fewer, inl e) =
    let faults = no_more t.faults s.session.faults fewer calm in rw (e, same, faults) refl
calm_read s value (r, t) calm (same, fewer, inr (e, h)) = absurd (omega (arith, ap length calm))

module _ (s : ObjectStore) (calm : s.session.faults ≡ [])
    (unique : Unique object_key same_object s.session.db.objects) where
  pub list_objects-calm :
      (input : ListObjectsInput)
      → one_of input.bucket (startup_names s) ≡ true
      → list_objects input s ≡ some (ok (listing input s.session.db), s)
  list_objects-calm input served =
      let (out, returns, reads) = list_objects-listing input s served unique in
      returns ∙ ap some (calm_read s (listing input s.session.db) out calm reads)

  -- ListObjects without a delimiter, of a served bucket, on a table of objects with unique keys and a
  -- session whose engine refuses nothing, returns and leaves the store as it was; it lists, in the
  -- order of their keys, the first objects behind the cursor whose keys match the prefix, as many as
  -- the limit asks for, and no common prefix; the next cursor is the last key listed, and the result
  -- is truncated exactly when something was asked for and objects are left.
  pub list_objects-plain :
      (input : ListObjectsInput)
      → one_of input.bucket (startup_names s) ≡ true
      → text_eq input.delimiter [] ≡ true
      → list_objects input s
        ≡ some (
          ok (
              result_with
                (take (effective_limit input.limit) (behind input input.after_key s.session.db))
                (leaves (effective_limit input.limit) (behind input input.after_key s.session.db))),
          s,
        )
  list_objects-plain input served plain =
      list_objects-calm input served
      ∙ ap (λ r. some (ok r, s)) (listing-plain input s.session.db unique plain)

take-take : {A : Type 0} (m n : ℕ) (xs : List A) → take m xs ++ take n (drop m xs) ≡ take (m + n) xs
take-take zero n xs = let e : 0 + n ≡ n = omega arith in rw e refl
take-take (suc m) n [] = take-nil n ∙ sym (take-nil (suc m + n))
take-take (suc m) n (x ∷ xs) =
    let e : suc m + n ≡ suc (m + n) = omega arith in rw e (ap (λ l. x ∷ l) (take-take m n xs))

-- Behind the last key of a page that leaves some stands what the page leaves.
behind-last_key :
    (input : ListObjectsInput) (after : Text) (db : Db) (n : ℕ)
    → Unique object_key same_object db.objects
    → (page : List Object) → take n (behind input after db) ≡ page
    → leaves n (behind input after db) ≡ true
    → behind input (last_key [] page) db ≡ drop n (behind input after db)
behind-last_key input after db n unique [] e h =
    absurd (false≢true (sym (leaves-empty n (behind input after db) e) ∙ h))
behind-last_key input after db n unique (o ∷ objects) e h =
    ap (λ k. behind input k db) (last_key-last_of [] o objects)
    ∙ behind-page input db unique after n o objects e

effective_limit_pos : (n : ℕ) → effective_limit (pos n) ≡ n
unfolding effective_limit
effective_limit_pos n = ground arith

-- Listings without a delimiter of one bucket and prefix.
module _ (input : ListObjectsInput) (db : Db) (unique : Unique object_key same_object db.objects)
    (plain : text_eq input.delimiter [] ≡ true) where
  listing-page :
      (n : ℕ) (after : Text)
      → listing (record input { limit = pos n; after_key = after }) db
        ≡ result_with (take n (behind input after db)) (leaves n (behind input after db))
  listing-page n after =
      let there : behind (record input { limit = pos n; after_key = after }) after db
          ≡ behind input after db =
        unfold behind in refl in
      listing-plain (record input { limit = pos n; after_key = after }) db unique plain
      ∙ rw (effective_limit_pos n, there) refl

  leaves-leaves :
      (m n : ℕ) (objects : List Object)
      → leaves m objects ≡ true
      → 0 < n
      → leaves n (drop m objects) ≡ leaves (m + n) objects
  leaves-leaves m n objects h k = ground (arith, length-drop m objects)

  listing-continued :
      (m n : ℕ) (first : ListObjectsResult)
      → first ≡ listing (record input { limit = pos m }) db
      → first.is_truncated ≡ true
      → 0 < n
      → (first.objects
            ++ (listing
                (record input { limit = pos n; after_key = first.next_continuation_after })
                db).objects
          ≡ (listing (record input { limit = pos (m + n) }) db).objects)
        × ((listing
              (record input { limit = pos n; after_key = first.next_continuation_after })
              db).is_truncated
            ≡ (listing (record input { limit = pos (m + n) }) db).is_truncated)
  listing-continued m n first e truncated k =
      let all = behind input input.after_key db in
      let page = e ∙ listing-page m input.after_key in
      let some_left : leaves m all ≡ true = ap (λ r. r.is_truncated) (sym page) ∙ truncated in
      let cursor : behind input first.next_continuation_after db ≡ drop m all =
        ap (λ (r : ListObjectsResult). behind input r.next_continuation_after db) page
        ∙ behind-last_key input input.after_key db m unique (take m all) refl some_left in
      let next : listing (record input { limit = pos n; after_key = first.next_continuation_after })
            db
          ≡ result_with (take n (drop m all)) (leaves n (drop m all)) =
        listing-page n first.next_continuation_after
        ∙ ap (λ l. result_with (take n l) (leaves n l)) cursor in
      let both = listing-page (m + n) input.after_key in
      (
        ap
              (λ (r : ListObjectsResult).
                r.objects
                ++ (listing
                    (record input { limit = pos n; after_key = first.next_continuation_after })
                    db).objects)
              page
            ∙ ap (λ (r : ListObjectsResult). map object_info (take m all) ++ r.objects) next
            ∙ sym (map-append object_info (take m all) (take n (drop m all)))
            ∙ ap (map object_info) (take-take m n all)
            ∙ ap (λ (r : ListObjectsResult). r.objects) (sym both),
        ap (λ (r : ListObjectsResult). r.is_truncated) next
            ∙ leaves-leaves m n all some_left k
            ∙ ap (λ (r : ListObjectsResult). r.is_truncated) (sym both),
      )

result_injective :
    (r q : ListObjectsResult) (s : ObjectStore)
    → ◌≡◌ {A = Option (Result Failure ListObjectsResult × ObjectStore)}
        (some (ok r, s))
        (some (ok q, s))
    → r ≡ q
result_injective r q s e = ground arith

-- Of a served bucket, on a table of objects with unique keys and a session whose engine refuses
-- nothing: when ListObjects without a delimiter and with a limit returns a truncated listing, then a
-- second listing with a positive limit from its cursor on and the first have together the objects, in
-- the same order, of one listing whose limit is the sum of the two, and the second is truncated
-- exactly when this one is.
pub list_objects-continued :
    (input : ListObjectsInput) (s : ObjectStore) (m n : ℕ) (first second : ListObjectsResult)
    → s.session.faults ≡ []
    → Unique object_key same_object s.session.db.objects
    → one_of input.bucket (startup_names s) ≡ true
    → text_eq input.delimiter [] ≡ true
    → 0 < n
    → list_objects (record input { limit = pos m }) s ≡ some (ok first, s)
    → first.is_truncated ≡ true
    → list_objects (record input { limit = pos n; after_key = first.next_continuation_after }) s
      ≡ some (ok second, s)
    → (whole : ListObjectsResult) × (list_objects (record input { limit = pos (m + n) }) s
        ≡ some (ok whole, s))
      × (first.objects ++ second.objects ≡ whole.objects)
      × (second.is_truncated ≡ whole.is_truncated)
list_objects-continued input s m n first second calm unique served plain h one truncated two =
    let db = s.session.db in
    let calmly = list_objects-calm s calm unique in
    let is_first : first ≡ listing (record input { limit = pos m }) db =
      result_injective _ _ s (sym one ∙ calmly (record input { limit = pos m }) served) in
    let second_input = record input { limit = pos n; after_key = first.next_continuation_after } in
    let is_second : second ≡ listing second_input db =
      result_injective _ _ s (sym two ∙ calmly second_input served) in
    let (objects, flag) = listing-continued input db unique plain m n first is_first truncated h in
    (
      listing (record input { limit = pos (m + n) }) db,
      calmly (record input { limit = pos (m + n) }) served,
      ap (λ (r : ListObjectsResult). first.objects ++ r.objects) is_second ∙ objects,
      ap (λ (r : ListObjectsResult). r.is_truncated) is_second ∙ flag,
    )
