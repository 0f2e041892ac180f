-- ===== src/Metadata/Objects/Steps.antt =====
-- The parts of a transaction on a calm session.
use tg_files.Common.{
  Text, ◌≡◌, refl, ap, ◌∙◌, Option, none, some, ok, err, select, not, Bool, false, List, [], ◌∷◌,
  ◌&&◌, ◌||◌, text_eq, arith,
}
use tg_files.Metadata.Types.{ObjectRow, Db}
use tg_files.Metadata.Sql.{not_found, calm, query, exec}
use tg_files.Metadata.Sql.Calm.{bind_ok, bind_err, query-calm, pure-calm, raise-calm, exec_ok}
use tg_files.Metadata.Table.{without, find}
use tg_files.Metadata.Statements.{
  select_object, select_chunks, delete_chunks, delete_object_row, of_object, object_key,
  same_object,
}
use tg_files.Metadata.Objects.{
  get_object_in_tx, object_exists_in_tx, delete_object_in_tx, scan_object, object_of_row,
  is_some_row,
}

-- Has one of the rows this bucket and this key?
abbrev pub is_there : Text → Text → List ObjectRow → Bool
is_there bucket key [] = false
is_there bucket key (row ∷ rows) =
    (text_eq row.bucket bucket && text_eq row.key key) || is_there bucket key rows

find-is_there :
    (bucket key : Text) (rows : List ObjectRow)
    → is_some_row (find object_key same_object (bucket, key) rows) ≡ is_there bucket key rows
unfolding find is_some_row same_object
find-is_there bucket key [] = refl
find-is_there bucket key (row ∷ rows) = ground (arith, find-is_there bucket key rows)

pub is_some_row-is_there :
    (bucket key : Text) (db : Db)
    → is_some_row (select_object bucket key db) ≡ is_there bucket key db.objects
unfolding select_object
is_some_row-is_there bucket key db = find-is_there bucket key db.objects

module _ (bucket key : Text) (db : Db) where
  selected :
      (row : Option ObjectRow)
      → select_object bucket key db ≡ row
      → query (select_object bucket key) (calm db) ≡ (ok row, calm db)
  selected row e =
      query-calm (select_object bucket key) db ∙ ap (λ (r : Option ObjectRow). (ok r, calm db)) e

  pub get_in_tx-none :
      select_object bucket key db ≡ none
      → get_object_in_tx bucket key (calm db) ≡ (err not_found, calm db)
  unfolding get_object_in_tx
  get_in_tx-none e =
      bind_ok (query (select_object bucket key)) _ (calm db) none (selected none e)
      ∙ bind_err (scan_object none) _ (calm db) not_found (raise-calm not_found (calm db))

  pub get_in_tx-some :
      (row : ObjectRow)
      → select_object bucket key db ≡ some row
      → get_object_in_tx bucket key (calm db)
        ≡ (ok (object_of_row row, select_chunks bucket key db), calm db)
  unfolding get_object_in_tx
  get_in_tx-some row e =
      let object = object_of_row row in
      let chunks = select_chunks bucket key db in
      bind_ok (query (select_object bucket key)) _ (calm db) (some row) (selected (some row) e)
      ∙ bind_ok (scan_object (some row)) _ (calm db) object (pure-calm object (calm db))
      ∙ bind_ok (query (select_chunks bucket key)) _ (calm db) chunks
          (query-calm (select_chunks bucket key) db)
      ∙ pure-calm (object, chunks) (calm db)

  pub exists_in_tx-calm :
      object_exists_in_tx bucket key (calm db) ≡ (ok (is_there bucket key db.objects), calm db)
  unfolding object_exists_in_tx
  exists_in_tx-calm =
      bind_ok (query (select_object bucket key)) _ (calm db) (select_object bucket key db)
        (query-calm (select_object bucket key) db)
      ∙ rw (is_some_row-is_there bucket key db)
          (pure-calm (is_there bucket key db.objects) (calm db))

  -- The tables behind a delete.
  abbrev pub deleted : Db
  deleted = record db {
    objects = without object_key same_object (bucket, key) db.objects;
    object_chunks = select (λ c. not (of_object bucket key c)) db.object_chunks;
  }

  pub delete_in_tx-calm : delete_object_in_tx bucket key (calm db) ≡ (ok tt, calm deleted)
  unfolding delete_object_in_tx
  delete_in_tx-calm =
      let cleared : Db = record db {
        object_chunks = select (λ c. not (of_object bucket key c)) db.object_chunks;
      } in
      bind_ok (exec (delete_chunks bucket key)) _ (calm db) tt
        (exec_ok (delete_chunks bucket key) {db' = cleared} refl)
      ∙ exec_ok (delete_object_row bucket key) {db' = deleted} refl
