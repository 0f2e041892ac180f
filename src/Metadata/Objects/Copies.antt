-- ===== src/Metadata/Objects/Copies.antt =====
-- CopyObject on every branch.
use tg_files.Common.{
  Text, Bool, true, false, not, ◌&&◌, List, [], ◌∷◌, ◌≡◌, refl, ◌∙◌, none, some, ok, err,
}
use tg_files.Golang.Int64.{ℤ}
use tg_files.Metadata.Types.{ObjectRow, Chunk, Db, Time}
use tg_files.Metadata.Sql.{not_found, destination_exists, calm}
use tg_files.Metadata.Sql.Calm.{bind_ok, bind_err, pure-calm, raise-calm}
use tg_files.Metadata.Statements.{select_object, select_chunks}
use tg_files.Metadata.Operations.Keys.{HasUniqueKeys}
use tg_files.Metadata.Objects.{
  copy_in_tx, get_object_in_tx, object_exists_in_tx, put_object_in_tx, copied_object,
  copy_chunks_for_key, object_of_row,
}
use tg_files.Metadata.Objects.Steps.{get_in_tx-none, get_in_tx-some, exists_in_tx-calm, is_there}
use tg_files.Metadata.Objects.Stored.{Ascending, Ascends, stored, put_object_in_tx-calm}
use tg_files.Metadata.Objects.Order.{Ascends-select}

-- Renamed chunks keep their order.
Ascending-copy :
    (bucket src dst : Text) (low : ℤ) (chunks : List Chunk)
    → Ascending bucket src low chunks
    → Ascending bucket dst low (copy_chunks_for_key chunks bucket dst)
unfolding copy_chunks_for_key
Ascending-copy bucket src dst low [] h = tt
Ascending-copy bucket src dst low (c ∷ chunks) (eb, ek, lt, h) =
    (refl, refl, lt, Ascending-copy bucket src dst c.part_number chunks h)

pub Ascends-copy :
    (bucket src dst : Text) (chunks : List Chunk)
    → Ascends bucket src chunks
    → Ascends bucket dst (copy_chunks_for_key chunks bucket dst)
unfolding copy_chunks_for_key
Ascends-copy bucket src dst [] h = tt
Ascends-copy bucket src dst (c ∷ chunks) (eb, ek, h) =
    (refl, refl, unfold copy_chunks_for_key in Ascending-copy bucket src dst c.part_number chunks h)

module _ (bucket src dst : Text) (overwrite : Bool) (now : Time) (db : Db) where
  -- A source that is not there.
  pub copy_in_tx-missing :
      select_object bucket src db ≡ none
      → copy_in_tx bucket src dst overwrite now (calm db) ≡ (err not_found, calm db)
  unfolding copy_in_tx
  copy_in_tx-missing e =
      bind_err (get_object_in_tx bucket src) _ (calm db) not_found (get_in_tx-none bucket src db e)

  abbrev pub taken : Bool
  taken = is_there bucket dst db.objects

  module _ (row : ObjectRow) (present : select_object bucket src db ≡ some row) where
    -- The tables behind a copy.
    abbrev pub copied : Db
    copied =
        stored (copied_object (object_of_row row) bucket dst now)
          (copy_chunks_for_key (select_chunks bucket src db) bucket dst) db

    -- A destination that is there, and no leave to overwrite it.
    pub copy_in_tx-refused :
        taken && not overwrite ≡ true
        → copy_in_tx bucket src dst overwrite now (calm db) ≡ (err destination_exists, calm db)
    unfolding copy_in_tx
    copy_in_tx-refused h =
        bind_ok (get_object_in_tx bucket src) _ (calm db)
          (object_of_row row, select_chunks bucket src db)
          (get_in_tx-some bucket src db row present)
        ∙ bind_ok (object_exists_in_tx bucket dst) _ (calm db) taken
            (exists_in_tx-calm bucket dst db)
        ∙ rw h (raise-calm destination_exists (calm db))

    pub copy_in_tx-done :
        taken && not overwrite ≡ false
        → HasUniqueKeys db
        → copy_in_tx bucket src dst overwrite now (calm db) ≡ (ok (not taken), calm copied)
    unfolding copy_in_tx
    copy_in_tx-done h u =
        let object = copied_object (object_of_row row) bucket dst now in
        let chunks = copy_chunks_for_key (select_chunks bucket src db) bucket dst in
        let ascends : Ascends bucket dst chunks =
          Ascends-copy bucket src dst (select_chunks bucket src db)
            (unfold select_chunks in Ascends-select bucket src db.object_chunks u.chunks) in
        bind_ok (get_object_in_tx bucket src) _ (calm db)
          (object_of_row row, select_chunks bucket src db)
          (get_in_tx-some bucket src db row present)
        ∙ bind_ok (object_exists_in_tx bucket dst) _ (calm db) taken
            (exists_in_tx-calm bucket dst db)
        ∙ rw h (
            bind_ok (put_object_in_tx object chunks) _ (calm db) tt
              (put_object_in_tx-calm object chunks db ascends)
            ∙ pure-calm (not taken) (calm copied))
