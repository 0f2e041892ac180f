-- ===== src/Metadata/Objects/Moves.antt =====
-- DeleteObject and MoveObject, as GetObject shows them.
use tg_files.Common.{
  Text, Bool, true, false, not, ◌&&◌, ◌≡◌, refl, ap, ◌∙◌, arith, none, some, Result, ok, err,
  if◌then◌else◌, Bool-cases, inl, inr, Option-cases, text_eq, sym,
}
use tg_files.Metadata.Types.{ObjectRow, Db, Time}
use tg_files.Metadata.Sql.{Session, DbError, not_found, destination_exists, same_source, calm}
use tg_files.Metadata.Sql.Calm.{
  bind_ok, bind_err, pure-calm, raise-calm, transaction_ok, transaction_err,
}
use tg_files.Metadata.Statements.{select_object, object_key, same_object, object_test}
use tg_files.Metadata.Table.{find-without}
use tg_files.Metadata.Operations.Keys.{HasUniqueKeys}
use tg_files.Metadata.Objects.{
  delete_object, delete_object_in_tx, move_object, copy_in_tx, get_object, is_some_row,
}
use tg_files.Metadata.Objects.Steps.{delete_in_tx-calm, deleted, is_there, is_some_row-is_there}
use tg_files.Metadata.Objects.RoundTrip.{view, get_object-eq-view, select-keeps}
use tg_files.Metadata.Objects.Copies.{
  taken, copied, copy_in_tx-missing, copy_in_tx-refused, copy_in_tx-done,
}

pub view-deleted :
    (bucket key b k : Text) (db : Db)
    → view b k (deleted bucket key db)
      ≡ (if same_object (bucket, key) (b, k) then err not_found else view b k db)
view-deleted bucket key b k db = elim (Bool-cases (same_object (bucket, key) (b, k))) [
  | inl same ↦
      rw (find-without object_key same_object object_test (bucket, key) (b, k) db.objects, same)
  | inr other ↦ rw (
    find-without object_key same_object object_test (bucket, key) (b, k) db.objects,
    other,
    select-keeps bucket key b k db.object_chunks other,
  )
]

delete_object-calm :
    (bucket key : Text) (db : Db)
    → delete_object bucket key (calm db) ≡ (ok tt, calm (deleted bucket key db))
unfolding delete_object
delete_object-calm bucket key db =
    transaction_ok (delete_object_in_tx bucket key) db tt (deleted bucket key db)
      (delete_in_tx-calm bucket key db)

-- On a session whose engine refuses nothing, DeleteObject returns whether or not the object is
-- there; GetObject then finds no object at the key, and at every other bucket and key what it found
-- before.
pub get_object-delete_object :
    (bucket key b k : Text) (db : Db)
    → ((delete_object bucket key (calm db)).0 ≡ ok tt)
      × ((get_object b k (delete_object bucket key (calm db)).1).0 ≡ (
          if same_object (bucket, key) (b, k) then err not_found else (get_object b k (calm db)).0))
get_object-delete_object bucket key b k db =
    rw
      (
        delete_object-calm bucket key db,
        get_object-eq-view b k (deleted bucket key db),
        get_object-eq-view b k db,
      )
      (refl, view-deleted bucket key b k db)

module _ (bucket src dst : Text) (overwrite : Bool) (now : Time) (db : Db) where
  -- What MoveObject returns, by the rows that are there.
  abbrev pub move_result : Result DbError Bool
  move_result =
      if text_eq src dst
      then err same_source
      else if not (is_there bucket src db.objects)
      then err not_found
      else if is_there bucket dst db.objects && not overwrite
      then err destination_exists
      else ok (not (is_there bucket dst db.objects))

  same-move :
      text_eq src dst ≡ true
      → (move_object bucket src dst overwrite now (calm db)).0 ≡ err same_source
  unfolding move_object
  same-move e =
      rw e (ap (λ (r : Result DbError Bool × Session). r.0) (raise-calm same_source (calm db)))

  module _ (other : text_eq src dst ≡ false) where
    missing-move :
        select_object bucket src db ≡ none
        → move_object bucket src dst overwrite now (calm db) ≡ (err not_found, calm db)
    unfolding move_object
    missing-move e = rw other (
        transaction_err _ db not_found db (
          bind_err (copy_in_tx bucket src dst overwrite now) _ (calm db) not_found
            (copy_in_tx-missing bucket src dst overwrite now db e)))

    module _ (row : ObjectRow) (present : select_object bucket src db ≡ some row) where
      refused-move :
          taken bucket src dst overwrite now db && not overwrite ≡ true
          → move_object bucket src dst overwrite now (calm db) ≡ (err destination_exists, calm db)
      unfolding move_object
      refused-move h = rw other (
          transaction_err _ db destination_exists db (
            bind_err (copy_in_tx bucket src dst overwrite now) _ (calm db) destination_exists
              (copy_in_tx-refused bucket src dst overwrite now db row present h)))

      pub done-move :
          taken bucket src dst overwrite now db && not overwrite ≡ false
          → HasUniqueKeys db
          → move_object bucket src dst overwrite now (calm db) ≡ (
            ok (not (taken bucket src dst overwrite now db)),
            calm (deleted bucket src (copied bucket src dst overwrite now db row present)),
          )
      unfolding move_object
      done-move h u =
          let db' = copied bucket src dst overwrite now db row present in
          let created = not (taken bucket src dst overwrite now db) in
          rw other (
            transaction_ok _ db created (deleted bucket src db') (
              bind_ok (copy_in_tx bucket src dst overwrite now) _ (calm db) created
                (copy_in_tx-done bucket src dst overwrite now db row present h u)
              ∙ bind_ok (delete_object_in_tx bucket src) _ (calm db') tt
                  (delete_in_tx-calm bucket src db')
              ∙ pure-calm created (calm (deleted bucket src db'))))

  -- On tables with unique keys and a session whose engine refuses nothing, MoveObject returns an
  -- error for one and the same key, else for a source that is not there, else for a destination that
  -- is there and may not be overwritten, and otherwise whether it created the destination.
  pub move_object-eq-move_result :
      HasUniqueKeys db → (move_object bucket src dst overwrite now (calm db)).0 ≡ move_result
  move_object-eq-move_result u = elim (Bool-cases (text_eq src dst)) [
    | inl same ↦ rw same (same-move same)
    | inr other ↦ elim (Option-cases (select_object bucket src db)) [
      | inl none_there ↦
          let absent : is_there bucket src db.objects ≡ false =
            sym (is_some_row-is_there bucket src db) ∙ rw none_there (unfold is_some_row in refl) in
          rw (missing-move other none_there, other, absent) refl
      | inr (row, present) ↦
          let there : is_there bucket src db.objects ≡ true =
            sym (is_some_row-is_there bucket src db) ∙ rw present (unfold is_some_row in refl) in
          elim (Bool-cases (taken bucket src dst overwrite now db && not overwrite)) [
            | inl no_leave ↦ rw (refused-move other row present no_leave) (ground arith)
            | inr fine ↦ rw (done-move other row present fine u) (ground arith)
          ]
    ]
  ]
