-- ===== src/Metadata/Objects/RoundTrip.antt =====
-- PutObject and GetObject of one object, and of another.
use tg_files.Common.{
  append-nil, Text, Bool, false, not, List, [], ◌∷◌, ◌++◌, ◌≡◌, refl, sym, ap, ◌∙◌, arith, Option,
  none, some, select, Result, ok, err, text_eq_iff,
}
use tg_files.Golang.Int64.{ℤ}
use tg_files.Metadata.Types.{Object, ObjectRow, Chunk, Db, unix_seconds}
use tg_files.Metadata.Sql.{DbError, not_found, calm}
use tg_files.Metadata.Sql.Calm.{transaction_ok, transaction_err}
use tg_files.Metadata.Table.{find, find-upsert}
use tg_files.Metadata.Statements.{
  of_object, order_by, sorted_insert, part_before, select_chunks, select_object, object_key,
  same_object, object_test,
}
use tg_files.Metadata.Objects.{
  put_object, get_object, get_object_in_tx, object_of_row, row_of_object,
}
use tg_files.Metadata.Objects.Steps.{get_in_tx-none, get_in_tx-some}
use tg_files.Metadata.Objects.Stored.{Ascending, Ascends, Ascends-low, stored, put_object-calm}

-- The abstract view of the tables: each key has an object with its chunks by part number, or none.
abbrev pub found : Option ObjectRow → List Chunk → Result DbError (Object × List Chunk)
found none chunks = err not_found
found (some row) chunks = ok (object_of_row row, chunks)

abbrev pub view : Text → Text → Db → Result DbError (Object × List Chunk)
view bucket key db =
    found (find object_key same_object (bucket, key) db.objects)
      (order_by part_before (select (of_object bucket key) db.object_chunks))

pub get_found :
    (bucket key : Text) (db : Db) (row : Option ObjectRow)
    → select_object bucket key db ≡ row
    → get_object bucket key (calm db) ≡ (found row (select_chunks bucket key db), calm db)
unfolding get_object
get_found bucket key db none e =
    transaction_err (get_object_in_tx bucket key) db not_found db (get_in_tx-none bucket key db e)
get_found bucket key db (some row) e =
    transaction_ok (get_object_in_tx bucket key) db (object_of_row row, select_chunks bucket key db)
      db (get_in_tx-some bucket key db row e)

-- GetObject returns the view of its key.
pub get_object-eq-view :
    (bucket key : Text) (db : Db) → get_object bucket key (calm db) ≡ (view bucket key db, calm db)
get_object-eq-view bucket key db =
    unfold select_object select_chunks in get_found bucket key db _ refl

-- Chunks that ascend are in the order of the query.
order_by-Ascending :
    (bucket key : Text) (low : ℤ) (chunks : List Chunk)
    → Ascending bucket key low chunks
    → order_by part_before chunks ≡ chunks
unfolding order_by part_before sorted_insert
order_by-Ascending bucket key low [] h = refl
order_by-Ascending bucket key low (c ∷ []) h = refl
order_by-Ascending bucket key low (c ∷ d ∷ chunks) (eb, ek, lt, h) =
    rw (order_by-Ascending bucket key c.part_number (d ∷ chunks) h) (ground arith)

pub select-others :
    (bucket key : Text) (rows : List Chunk)
    → select (of_object bucket key) (select (λ c. not (of_object bucket key c)) rows) ≡ []
select-others bucket key [] = refl
select-others bucket key (r ∷ rows) = ground (arith, select-others bucket key rows)

select-Ascending :
    (bucket key : Text) (low : ℤ) (chunks : List Chunk)
    → Ascending bucket key low chunks
    → select (of_object bucket key) chunks ≡ chunks
unfolding of_object
select-Ascending bucket key low [] h = refl
select-Ascending bucket key low (c ∷ chunks) (eb, ek, lt, h) = ground (
  arith,
  select-Ascending bucket key c.part_number chunks h,
  text_eq_iff c.bucket bucket,
  text_eq_iff c.key key,
)

pub select-append :
    (p : Chunk → Bool) (rows rows' : List Chunk)
    → select p (rows ++ rows') ≡ select p rows ++ select p rows'
select-append p [] rows' = refl
select-append p (r ∷ rows) rows' = ground (arith, select-append p rows rows')

-- A time loses its part of a second in the table.
abbrev pub to_seconds : Object → Object
to_seconds o = record o { last_modified = unix_seconds o.last_modified.seconds }

pub view-stored :
    (object : Object) (low : ℤ) (chunks : List Chunk) (db : Db)
    → Ascending object.bucket object.key low chunks
    → view object.bucket object.key (stored object chunks db) ≡ ok (to_seconds object, chunks)
view-stored object low chunks db h =
    let b = object.bucket in
    let k = object.key in
    rw
      (
        find-upsert object_key same_object object_test (row_of_object object) (b, k) db.objects,
        select-append (of_object b k) (select (λ c. not (of_object b k c)) db.object_chunks) chunks,
        select-others b k db.object_chunks,
        select-Ascending b k low chunks h,
        order_by-Ascending b k low chunks h,
      )
      (unfold row_of_object object_of_row in rw ((object_test.same_iff (b, k) (b, k)).1 refl))

-- On a session whose engine refuses nothing, PutObject of chunks that belong to the object and whose
-- part numbers ascend returns; GetObject behind it returns the object that was put, with its time
-- cut to whole seconds, and exactly these chunks in order.
pub get_object-put_object :
    (object : Object) (chunks : List Chunk) (db : Db)
    → Ascends object.bucket object.key chunks
    → ((put_object object chunks (calm db)).0 ≡ ok tt)
      × ((get_object object.bucket object.key (put_object object chunks (calm db)).1).0
          ≡ ok (to_seconds object, chunks))
get_object-put_object object chunks db ascends =
    let (low, h) = Ascends-low object.bucket object.key chunks ascends in
    rw (put_object-calm object chunks db ascends) (
      refl,
      ap (λ r. r.0) (get_object-eq-view object.bucket object.key (stored object chunks db))
          ∙ view-stored object low chunks db h,
    )

pub select-keeps :
    (bucket key b k : Text) (rows : List Chunk)
    → same_object (bucket, key) (b, k) ≡ false
    → select (of_object b k) (select (λ c. not (of_object bucket key c)) rows)
      ≡ select (of_object b k) rows
unfolding of_object same_object
select-keeps bucket key b k [] h = refl
select-keeps bucket key b k (r ∷ rows) h = ground (
  arith,
  select-keeps bucket key b k rows h,
  text_eq_iff r.bucket b,
  text_eq_iff r.key k,
  text_eq_iff r.bucket bucket,
  text_eq_iff r.key key,
  text_eq_iff bucket b,
  text_eq_iff key k,
)

select-none :
    (bucket key b k : Text) (low : ℤ) (chunks : List Chunk)
    → same_object (bucket, key) (b, k) ≡ false
    → Ascending bucket key low chunks
    → select (of_object b k) chunks ≡ []
unfolding of_object same_object
select-none bucket key b k low [] e h = refl
select-none bucket key b k low (c ∷ chunks) e (eb, ek, lt, h) = ground (
  arith,
  select-none bucket key b k c.part_number chunks e h,
  text_eq_iff c.bucket b,
  text_eq_iff c.key k,
  text_eq_iff bucket b,
  text_eq_iff key k,
)

pub view-stored_other :
    (object : Object) (low : ℤ) (chunks : List Chunk) (db : Db) (b k : Text)
    → Ascending object.bucket object.key low chunks
    → same_object (object.bucket, object.key) (b, k) ≡ false
    → view b k (stored object chunks db) ≡ view b k db
view-stored_other object low chunks db b k h e =
    rw
      (
        find-upsert object_key same_object object_test (row_of_object object) (b, k) db.objects,
        select-append (of_object b k)
            (select (λ c. not (of_object object.bucket object.key c)) db.object_chunks) chunks,
        select-keeps object.bucket object.key b k db.object_chunks e,
        select-none object.bucket object.key b k low chunks e h,
        append-nil,
      )
      (unfold row_of_object in rw e)

-- On a session whose engine refuses nothing, PutObject of chunks that belong to the object and whose
-- part numbers ascend changes what GetObject returns at no other bucket and key.
pub get_object-put_object_ne :
    (object : Object) (chunks : List Chunk) (db : Db) (b k : Text)
    → Ascends object.bucket object.key chunks
    → same_object (object.bucket, object.key) (b, k) ≡ false
    → (get_object b k (put_object object chunks (calm db)).1).0 ≡ (get_object b k (calm db)).0
get_object-put_object_ne object chunks db b k ascends e =
    let (low, h) = Ascends-low object.bucket object.key chunks ascends in
    rw (put_object-calm object chunks db ascends) (
      ap (λ r. r.0) (get_object-eq-view b k (stored object chunks db))
      ∙ view-stored_other object low chunks db b k h e
      ∙ sym (ap (λ r. r.0) (get_object-eq-view b k db)))
