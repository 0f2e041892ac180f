-- ===== src/Store/Listing/Pages.antt =====
-- The pages that ListObjects asks the metadata store for are cut from one list.
use tg_files.Common.{
  ℕ, zero, suc, ◌<◌, Text, true, false, List, [], ◌∷◌, ◌++◌, ◌≡◌, refl, arith, map, take, drop,
  take-drop, append_assoc, leb, ◌+◌, ap, ◌∙◌, sym, All, text_lt,
}
use tg_files.Metadata.Types.{Object, ObjectRow, Db}
use tg_files.Metadata.Like.{prefix_pattern}
use tg_files.Metadata.Sql.{Session, query, pure, ◌>>=◌}
use tg_files.Metadata.Sql.Reads.{Reads, query-map}
use tg_files.Metadata.Table.{Unique}
use tg_files.Metadata.Statements.{same_object, object_key, select_page}
use tg_files.Metadata.Objects
use tg_files.Metadata.Objects.{object_of_row}
use tg_files.Metadata.Objects.Pages.{rows_behind, rows_behind-resume, rows_behind-All}
use tg_files.Store.Listing.Entry.{ListObjectsInput}
use tg_files.Store.Listing.{next_page}

-- All objects of the bucket whose keys match the prefix and come behind a key, in the order of keys.
unfoldable pub behind : ListObjectsInput → Text → Db → List Object
unfolding rows_behind object_of_row
behind input after db =
    map object_of_row (rows_behind input.bucket (prefix_pattern input.prefix) after db)

map-take {ℓ} :
    {A B : Type ℓ} (f : A → B) (n : ℕ) (xs : List A) → map f (take n xs) ≡ take n (map f xs)
map-take f zero xs = refl
map-take f (suc n) [] = refl
map-take f (suc n) (x ∷ xs) = ap (λ l. f x ∷ l) (map-take f n xs)

take-behind :
    (input : ListObjectsInput) (after : Text) (n : ℕ) (db : Db)
    → map object_of_row (select_page input.bucket (prefix_pattern input.prefix) after n db)
      ≡ take n (behind input after db)
unfolding select_page behind rows_behind
take-behind input after n db = map-take object_of_row n _

next_page-query :
    (input : ListObjectsInput) (after : Text) (n : ℕ) (s : Session)
    → next_page input after (suc n) s
      ≡ (query (select_page input.bucket (prefix_pattern input.prefix) after (suc n)) >>= λ rows.
            pure (map object_of_row rows))
          s
unfolding next_page Objects.list_objects
next_page-query input after n s =
    let positive : leb (suc n + 0) 0 ≡ false = ground arith in rw positive

-- A page holds the first objects behind the cursor.
pub next_page-Reads :
    (input : ListObjectsInput) (after : Text) (n : ℕ) (s : Session)
    → 0 < n
    → Reads s (take n (behind input after s.db)) (next_page input after n s)
next_page-Reads input after zero s h = elim h [ ]
next_page-Reads input after (suc n) s h =
    rw (next_page-query input after n s, ← take-behind input after (suc n) s.db)
      (query-map (select_page input.bucket (prefix_pattern input.prefix) after (suc n))
        (map object_of_row) s)

abbrev pub last_of : Object → List Object → Object
last_of o [] = o
last_of o (p ∷ objects) = last_of p objects

split_last :
    (o : Object) (objects : List Object)
    → (before : List Object) × (o ∷ objects ≡ before ++ last_of o objects ∷ [])
split_last o [] = ([], refl)
split_last o (p ∷ objects) =
    let (before, e) = split_last p objects in (o ∷ before, ap (λ l. o ∷ l) e)

-- A list whose image splits at an element.
map_split {ℓ} :
    {A B : Type ℓ} (f : A → B) (rows : List A) (xs : List B) (o : B) (ys : List B)
    → map f rows ≡ xs ++ o ∷ ys
    → (before : List A) × (r : A) × (after : List A) × (rows ≡ before ++ r ∷ after)
      × (f r ≡ o)
      × (map f after ≡ ys)
map_split f [] [] o ys e = cc
map_split f [] (x ∷ xs) o ys e = cc
map_split f (r ∷ rows) [] o ys e = ([], r, rows, refl, cc, cc)
map_split f (r ∷ rows) (x ∷ xs) o ys e =
    let (before, q, after, split, here, rest) = map_split f rows xs o ys (cc) in
    (r ∷ before, q, after, ap (λ l. r ∷ l) split, here, rest)

object_of_row-key : (r : ObjectRow) → (object_of_row r).key ≡ r.key
unfolding object_of_row
object_of_row-key r = refl

module _ (input : ListObjectsInput) (db : Db)
    (unique : Unique object_key same_object db.objects) where
  pub behind-resume :
      (after : Text) (xs : List Object) (o : Object) (ys : List Object)
      → behind input after db ≡ xs ++ o ∷ ys
      → behind input o.key db ≡ ys
  unfolding behind
  behind-resume after xs o ys e =
      let pattern = prefix_pattern input.prefix in
      let (before, r, rest, split, here, tail) =
        map_split object_of_row (rows_behind input.bucket pattern after db) xs o ys e in
      let same_key : o.key ≡ r.key = ap (λ (p : Object). p.key) (sym here) ∙ object_of_row-key r in
      ap (λ k. map object_of_row (rows_behind input.bucket pattern k db)) same_key
      ∙ ap (map object_of_row)
          (rows_behind-resume input.bucket pattern db unique after before r rest split)
      ∙ tail

  -- Behind a page stands what the page leaves.
  pub behind-page :
      (after : Text) (n : ℕ) (o : Object) (objects : List Object)
      → take n (behind input after db) ≡ o ∷ objects
      → behind input (last_of o objects).key db ≡ drop n (behind input after db)
  behind-page after n o objects page =
      let (before, e) = split_last o objects in
      behind-resume after before (last_of o objects) (drop n (behind input after db)) (
        sym (take-drop n (behind input after db))
        ∙ ap (λ l. l ++ drop n (behind input after db)) (page ∙ e)
        ∙ append_assoc before (last_of o objects ∷ []) (drop n (behind input after db)))

above-map :
    (after : Text) (rows : List ObjectRow)
    → All (λ x. text_lt after x.key ≡ true) rows
    → All (λ (o : Object). text_lt after o.key ≡ true) (map object_of_row rows)
above-map after [] h = tt
above-map after (r ∷ rows) (e, h) = (unfold object_of_row in e, above-map after rows h)

pub behind-All :
    (input : ListObjectsInput) (after : Text) (db : Db)
    → All (λ o. text_lt after o.key ≡ true) (behind input after db)
unfolding behind
behind-All input after db =
    above-map after (rows_behind input.bucket (prefix_pattern input.prefix) after db)
      (rows_behind-All input.bucket (prefix_pattern input.prefix) after db)
