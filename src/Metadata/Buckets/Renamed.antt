-- ===== src/Metadata/Buckets/Renamed.antt =====
-- What GetObject finds behind RenameBucket.
use tg_files.Common.{
  Text, true, false, List, [], ◌∷◌, ◌≡◌, refl, arith, none, some, ok, err, Option, Result,
  if◌then◌else◌, text_eq, eq_of_text_eq, map, select, All, Bool-cases, inl, inr, subst, sym, ◌∙◌,
  length, ltb, ◌==◌,
}
use tg_files.Metadata.Types.{Db, BucketRow, ObjectRow, Object, Chunk}
use tg_files.Metadata.Sql.{DbError, calm, query, exec, not_found}
use tg_files.Metadata.Sql.Calm.{bind_ok, exec_ok, query-calm, pure-calm, transaction_ok}
use tg_files.Metadata.Table.{find, update, no_clash}
use tg_files.Metadata.Statements.{
  bucket_key, object_key, chunk_key, same_object, same_chunk, of_object, order_by, part_before,
}
use tg_files.Metadata.Buckets.{
  renamed_bucket, renamed_object, renamed_chunk, rename_bucket_row, rename_object_rows,
  rename_chunk_rows, rename_bucket, count_bucket_rows, count_object_rows, count_chunk_rows,
}
use tg_files.Metadata.Buckets.Renaming.{
  AreFree, AreFreeChunks, under_new, find-renamed_object, find-renamed_object_old,
  find-renamed_object_ne, no_clash-renamed_object, no_clash-renamed_chunk, no_clash-renamed_bucket,
  select-renamed_chunk, select-renamed_chunk_ne, order_by-under_new,
}
use tg_files.Metadata.Objects.{get_object, object_of_row}
use tg_files.Metadata.Objects.RoundTrip.{view, found, get_object-eq-view}
use tg_files.Metadata.Operations.Keys.{HasUniqueKeys}

module _ (old new : Text) where
  free_buckets :
      (rows : List BucketRow)
      → length (select (λ (r : BucketRow). text_eq r.name new) rows) ≡ 0
      → All (λ b. text_eq b.name new ≡ false) rows
  free_buckets [] h = tt
  free_buckets (x ∷ xs) h = elim (Bool-cases (text_eq x.name new)) [
    | inl taken ↦ ground arith
    | inr free ↦ (free, free_buckets xs (ground arith))
  ]

  abbrev renamed : Db → Db
  renamed db = record db {
    buckets = map (renamed_bucket old new) db.buckets;
    objects = map (renamed_object old new) db.objects;
    object_chunks = map (renamed_chunk old new) db.object_chunks;
  }

  rename_bucket_row_ok :
      (db : Db)
      → no_clash bucket_key text_eq (map (renamed_bucket old new) db.buckets) ≡ true
      → rename_bucket_row old new db
        ≡ ok (record db { buckets = map (renamed_bucket old new) db.buckets })
  unfolding rename_bucket_row update
  rename_bucket_row_ok db fine = rw fine refl

  rename_object_rows_ok :
      (db : Db)
      → no_clash object_key same_object (map (renamed_object old new) db.objects) ≡ true
      → rename_object_rows old new db
        ≡ ok (record db { objects = map (renamed_object old new) db.objects })
  unfolding rename_object_rows update
  rename_object_rows_ok db fine = rw fine refl

  rename_chunk_rows_ok :
      (db : Db)
      → no_clash chunk_key same_chunk (map (renamed_chunk old new) db.object_chunks) ≡ true
      → rename_chunk_rows old new db
        ≡ ok (record db { object_chunks = map (renamed_chunk old new) db.object_chunks })
  unfolding rename_chunk_rows update
  rename_chunk_rows_ok db fine = rw fine refl

  rename_bucket-calm :
      (db : Db)
      → HasUniqueKeys db
      → text_eq old new ≡ false
      → (count_bucket_rows old db == 0) ≡ false
      → count_bucket_rows new db ≡ 0
      → AreFree old new db.objects
      → AreFreeChunks old new db.object_chunks
      → rename_bucket old new (calm db) ≡ (
        ok (record {
          buckets = 1;
          objects = count_object_rows old db;
          chunks = count_chunk_rows old db;
        }),
        calm (renamed db),
      )
  unfolding rename_bucket
  rename_bucket-calm db u other there absent free free_chunks =
      let buckets =
        no_clash-renamed_bucket old new db.buckets u.buckets
          (free_buckets db.buckets (unfold count_bucket_rows in absent)) in
      let objects = no_clash-renamed_object old new db.objects u.objects free in
      let chunks = no_clash-renamed_chunk old new db.object_chunks u.chunks free_chunks in
      let db1 : Db = record db { buckets = map (renamed_bucket old new) db.buckets } in
      let db2 : Db = record db1 { objects = map (renamed_object old new) db.objects } in
      let target : ltb 0 (count_bucket_rows new db) ≡ false = rw absent refl in
      let first : rename_bucket_row old new db ≡ ok db1 = rename_bucket_row_ok db buckets in
      let second : rename_object_rows old new db1 ≡ ok db2 = rename_object_rows_ok db1 objects in
      let third : rename_chunk_rows old new db2 ≡ ok (renamed db) =
        rename_chunk_rows_ok db2 chunks in
      rw other (
        transaction_ok _ db _ (renamed db) (
          bind_ok (query (count_bucket_rows old)) _ (calm db) _
            (query-calm (count_bucket_rows old) db)
          ∙ rw there (
              bind_ok (query (count_bucket_rows new)) _ (calm db) _
                (query-calm (count_bucket_rows new) db)
              ∙ rw target (
                  bind_ok (query (count_object_rows old)) _ (calm db) _
                    (query-calm (count_object_rows old) db)
                  ∙ bind_ok (query (count_chunk_rows old)) _ (calm db) _
                      (query-calm (count_chunk_rows old) db)
                  ∙ bind_ok (exec (rename_bucket_row old new)) _ (calm db) tt
                      (exec_ok (rename_bucket_row old new) first)
                  ∙ bind_ok (exec (rename_object_rows old new)) _ (calm db1) tt
                      (exec_ok (rename_object_rows old new) second)
                  ∙ bind_ok (exec (rename_chunk_rows old new)) _ (calm db2) tt
                      (exec_ok (rename_chunk_rows old new) third)
                  ∙ pure-calm _ (calm (renamed db))))))

  -- An object and its chunks under the new name.
  abbrev pub under : Result DbError (Object × List Chunk) → Result DbError (Object × List Chunk)
  under (ok (object, chunks)) = ok (record object { bucket = new }, map (under_new old new) chunks)
  under (err e) = err e

  found-under :
      (row : Option ObjectRow) (chunks : List Chunk)
      → found
          (elim row [ none ↦ none | some r ↦ some (record r { bucket = new }) ])
          (map (under_new old new) chunks)
        ≡ under (found row chunks)
  unfolding object_of_row
  found-under none chunks = refl
  found-under (some r) chunks = refl

  view-renamed :
      (b k : Text) (db : Db)
      → text_eq old new ≡ false
      → AreFree old new db.objects
      → AreFreeChunks old new db.object_chunks
      → view b k (renamed db) ≡ (
          if text_eq b new
          then under (view old k db)
          else if text_eq b old
          then err not_found
          else view b k db)
  view-renamed b k db other free free_chunks = elim (Bool-cases (text_eq b new)) [
    | inl here ↦ rw here (
        subst (λ t. view t k (renamed db) ≡ under (view old k db)) (sym (eq_of_text_eq b new here))
          (rw
            (
              find-renamed_object old new k db.objects free,
              select-renamed_chunk old new k db.object_chunks free_chunks,
              order_by-under_new old new (select (of_object old k) db.object_chunks),
            )
            (found-under (find object_key same_object (old, k) db.objects)
              (order_by part_before (select (of_object old k) db.object_chunks)))))
    | inr elsewhere ↦ elim (Bool-cases (text_eq b old)) [
      | inl before ↦
          rw (elsewhere, before)
            (subst (λ t. view t k (renamed db) ≡ err not_found) (sym (eq_of_text_eq b old before))
              (rw (find-renamed_object_old old new k db.objects other) refl))
      | inr apart ↦
          rw
            (
              elsewhere,
              apart,
              find-renamed_object_ne old new b k db.objects apart elsewhere,
              select-renamed_chunk_ne old new b k db.object_chunks apart elsewhere,
            )
            refl
    ]
  ]

-- On tables with unique keys and a session whose engine refuses nothing, RenameBucket of a bucket that
-- is there to another name that no bucket, object or chunk has returns the numbers of rows it changed;
-- GetObject then finds in the bucket of the new name what it found in that of the old one, under the
-- new name, nothing in the bucket of the old name, and in every other bucket what it found before.
pub get_object-rename_bucket :
    (old new b k : Text) (db : Db)
    → HasUniqueKeys db
    → text_eq old new ≡ false
    → (count_bucket_rows old db == 0) ≡ false
    → count_bucket_rows new db ≡ 0
    → AreFree old new db.objects
    → AreFreeChunks old new db.object_chunks
    → ((rename_bucket old new (calm db)).0
        ≡ ok (record {
          buckets = 1;
          objects = count_object_rows old db;
          chunks = count_chunk_rows old db;
        }))
      × ((get_object b k (rename_bucket old new (calm db)).1).0 ≡ (
          if text_eq b new
          then under old new (get_object old k (calm db)).0
          else if text_eq b old
          then err not_found
          else (get_object b k (calm db)).0))
get_object-rename_bucket old new b k db u other there absent free free_chunks =
    rw
      (
        rename_bucket-calm old new db u other there absent free free_chunks,
        get_object-eq-view b k (renamed old new db),
        get_object-eq-view b k db,
        get_object-eq-view old k db,
      )
      (refl, view-renamed old new b k db other free free_chunks)
