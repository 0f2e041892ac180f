-- ===== src/Metadata/Objects/Stored.antt =====
-- What PutObject leaves in the tables, and the chunks that a query then finds.
use tg_files.Common.{
  ◌+◌, Text, true, false, not, List, [], ◌∷◌, ◌++◌, ◌≡◌, refl, ◌∙◌, arith, All, select, append-nil,
  append_assoc, ok, Bool-cases, inl, inr,
}
use tg_files.Golang.Int64.{sub_ℕ, ℤ, pos, ltb_ℤ, leb_ℤ, pos_part, neg_part}
use tg_files.Metadata.Types.{Object, Chunk, Db}
use tg_files.Metadata.Sql.Calm.{bind_ok, exec_ok, pure-calm, transaction_ok}
use tg_files.Metadata.Sql.{exec, calm}
use tg_files.Metadata.Table.{has_key, insert, upsert}
use tg_files.Metadata.Statements.{
  chunk_key, same_chunk, of_object, insert_chunk, object_key, same_object, delete_chunks,
  upsert_object,
}
use tg_files.Metadata.Objects.{insert_chunks, put_object_in_tx, put_object, row_of_object}

module _ (bucket key : Text) where
  -- The chunks belong to the object, and their part numbers ascend from above `low`.
  abbrev pub Ascending : ℤ → List Chunk → Type 0
  Ascending low [] = Unit
  Ascending low (c ∷ cs) =
      (c.bucket ≡ bucket)
      × (c.key ≡ key)
      × (ltb_ℤ low c.part_number ≡ true)
      × Ascending c.part_number cs

  -- The chunks belong to the object, and their part numbers ascend.
  abbrev pub Ascends : List Chunk → Type 0
  Ascends [] = Unit
  Ascends (c ∷ cs) = (c.bucket ≡ bucket) × (c.key ≡ key) × Ascending c.part_number cs

  pub Ascends-low : (cs : List Chunk) → Ascends cs → (low : ℤ) × Ascending low cs
  Ascends-low [] h = (pos 0, tt)
  Ascends-low (c ∷ cs) (eb, ek, h) =
      (sub_ℕ (pos_part c.part_number) (neg_part c.part_number + 1), (eb, ek, ground arith, h))

  -- Rows of the object have part numbers up to `top`.
  abbrev Below : ℤ → List Chunk → Type 0
  Below top = All (λ c. of_object bucket key c ≡ true → leb_ℤ c.part_number top ≡ true)

  Below-append :
      (low top : ℤ) (rows : List Chunk) (c : Chunk)
      → Below low rows
      → leb_ℤ low top ≡ true
      → c.part_number ≡ top
      → Below top (rows ++ c ∷ [])
  Below-append low top [] c h le e = ((λ o. ground arith), tt)
  Below-append low top (r ∷ rows) c (hr, h) le e =
      ((λ o. ground (arith, hr o)), Below-append low top rows c h le e)

  Below-fresh :
      (low p : ℤ) (rows : List Chunk)
      → Below low rows
      → ltb_ℤ low p ≡ true
      → has_key chunk_key same_chunk (bucket, key, p) rows ≡ false
  unfolding has_key same_chunk of_object
  Below-fresh low p [] h lt = refl
  Below-fresh low p (r ∷ rows) (hr, h) lt = ground (arith, Below-fresh low p rows h lt)

-- On a calm session a chunk with a new key is inserted behind the rows.
insert_chunk-calm :
    (c : Chunk) (db : Db)
    → has_key chunk_key same_chunk (chunk_key c) db.object_chunks ≡ false
    → exec (insert_chunk c) (calm db)
      ≡ (ok tt, calm (record db { object_chunks = db.object_chunks ++ c ∷ [] }))
unfolding insert_chunk insert
insert_chunk-calm c db fresh = exec_ok (insert_chunk c) (ground arith)

-- On a calm session every chunk is inserted behind the rows.
insert_chunks-calm :
    (bucket key : Text) (low : ℤ) (cs : List Chunk) (db : Db)
    → Ascending bucket key low cs
    → Below bucket key low db.object_chunks
    → insert_chunks cs (calm db)
      ≡ (ok tt, calm (record db { object_chunks = db.object_chunks ++ cs }))
unfolding insert_chunks
insert_chunks-calm bucket key low [] db h b = pure-calm tt (calm db) ∙ rw append-nil
insert_chunks-calm bucket key low (c ∷ cs) db (eb, ek, lt, h) b =
    let rows = db.object_chunks ++ c ∷ [] in
    let db' : Db = record db { object_chunks = rows } in
    let fresh : has_key chunk_key same_chunk (chunk_key c) db.object_chunks ≡ false =
      rw (eb, ek) (Below-fresh bucket key low c.part_number db.object_chunks b lt) in
    bind_ok (exec (insert_chunk c)) (λ _. insert_chunks cs) (calm db) tt
      (insert_chunk-calm c db fresh)
    ∙ insert_chunks-calm bucket key c.part_number cs db' h
        (Below-append bucket key low c.part_number db.object_chunks c b (ground arith) refl)
    ∙ rw append_assoc

-- The tables behind PutObject.
abbrev pub stored : Object → List Chunk → Db → Db
stored object chunks db = record db {
  objects = upsert object_key same_object (row_of_object object) db.objects;
  object_chunks =
      select (λ c. not (of_object object.bucket object.key c)) db.object_chunks ++ chunks;
}

Below-others :
    (bucket key : Text) (low : ℤ) (rows : List Chunk)
    → Below bucket key low (select (λ c. not (of_object bucket key c)) rows)
Below-others bucket key low [] = tt
Below-others bucket key low (r ∷ rows) = elim (Bool-cases (of_object bucket key r)) [
  | inl old ↦ rw old (Below-others bucket key low rows)
  | inr other ↦ rw other ((λ o. ground arith), Below-others bucket key low rows)
]

pub put_object_in_tx-calm :
    (object : Object) (chunks : List Chunk) (db : Db)
    → Ascends object.bucket object.key chunks
    → put_object_in_tx object chunks (calm db) ≡ (ok tt, calm (stored object chunks db))
unfolding put_object_in_tx
put_object_in_tx-calm object chunks db ascends =
    let (low, h) = Ascends-low object.bucket object.key chunks ascends in
    let b = object.bucket in
    let k = object.key in
    let row = row_of_object object in
    let cleared : Db = record db {
      object_chunks = select (λ c. not (of_object b k c)) db.object_chunks;
    } in
    let written : Db = record cleared { objects = upsert object_key same_object row db.objects } in
    bind_ok (exec (delete_chunks b k)) _ (calm db) tt
      (exec_ok (delete_chunks b k) {db' = cleared} refl)
    ∙ bind_ok (exec (upsert_object row)) _ (calm cleared) tt
        (exec_ok (upsert_object row) {db' = written} refl)
    ∙ insert_chunks-calm b k low chunks written h (Below-others b k low db.object_chunks)

-- On a calm session PutObject with ascending part numbers returns, and stores the object and its
-- chunks in place of those that were there.
pub put_object-calm :
    (object : Object) (chunks : List Chunk) (db : Db)
    → Ascends object.bucket object.key chunks
    → put_object object chunks (calm db) ≡ (ok tt, calm (stored object chunks db))
unfolding put_object
put_object-calm object chunks db ascends =
    transaction_ok (put_object_in_tx object chunks) db tt (stored object chunks db)
      (put_object_in_tx-calm object chunks db ascends)
