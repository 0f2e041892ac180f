-- ===== src/Metadata/Prefixes/Deletes.antt =====
-- DeletePrefix, as GetObject shows it.
use tg_files.Common.{
  Text, Bool, false, not, ◌&&◌, List, [], ◌∷◌, ◌≡◌, refl, ap, ◌∙◌, arith, none, ok, err,
  if◌then◌else◌, Bool-cases, inl, inr, text_eq, text_eq_iff, select, map,
}
use tg_files.Golang.Strings.{has_prefix, lower_byte}
use tg_files.Metadata.Types.{ObjectRow, Chunk, Db}
use tg_files.Metadata.Sql.{not_found, calm, exec}
use tg_files.Metadata.Sql.Calm.{bind_ok, exec_ok, transaction_ok}
use tg_files.Metadata.Statements.{
  same_object, object_key, of_object, delete_chunks_like, delete_objects_like, object_test,
}
use tg_files.Metadata.Table.{find}
use tg_files.Metadata.Like.{like, prefix_pattern, like-prefix_pattern}
use tg_files.Metadata.Objects.{get_object}
use tg_files.Metadata.Objects.RoundTrip.{view, get_object-eq-view}
use tg_files.Metadata.Prefixes.{delete_prefix, delete_prefix_in_tx}

module _ (bucket pattern : Text) where
  abbrev hit : Text → Text → Bool
  hit b k = text_eq b bucket && like pattern k

  abbrev pub swept : Db → Db
  swept db = record db {
    objects = select (λ r. not (hit r.bucket r.key)) db.objects;
    object_chunks = select (λ c. not (hit c.bucket c.key)) db.object_chunks;
  }

  find-swept :
      (b k : Text) (rows : List ObjectRow)
      → find object_key same_object (b, k) (select (λ r. not (hit r.bucket r.key)) rows)
        ≡ (if hit b k then none else find object_key same_object (b, k) rows)
  unfolding find
  find-swept b k [] = ground arith
  find-swept b k (r ∷ rows) = elim (Bool-cases (same_object (r.bucket, r.key) (b, k))) [
    | inl mine ↦
        let e : hit r.bucket r.key ≡ hit b k =
          ap (λ (p : Text × Text). hit p.0 p.1)
            ((object_test.same_iff (r.bucket, r.key) (b, k)).0 mine) in
        ground (arith, find-swept b k rows)
    | inr other ↦ ground (arith, find-swept b k rows)
  ]

  select-swept :
      (b k : Text) (rows : List Chunk)
      → hit b k ≡ false
      → select (of_object b k) (select (λ c. not (hit c.bucket c.key)) rows)
        ≡ select (of_object b k) rows
  unfolding of_object
  select-swept b k [] h = refl
  select-swept b k (r ∷ rows) h = elim (Bool-cases (text_eq r.bucket b && text_eq r.key k)) [
    | inl mine ↦
        let eb : r.bucket ≡ b = ground (arith, text_eq_iff r.bucket b) in
        let ek : r.key ≡ k = ground (arith, text_eq_iff r.key k) in
        let e : hit r.bucket r.key ≡ false = rw (eb, ek) h in
        ground (arith, select-swept b k rows h)
    | inr other ↦ ground (arith, select-swept b k rows h)
  ]

pub view-swept :
    (bucket pattern b k : Text) (db : Db)
    → view b k (swept bucket pattern db)
      ≡ (if hit bucket pattern b k then err not_found else view b k db)
view-swept bucket pattern b k db = elim (Bool-cases (hit bucket pattern b k)) [
  | inl gone ↦ rw (find-swept bucket pattern b k db.objects, gone)
  | inr kept ↦ rw (
    find-swept bucket pattern b k db.objects,
    kept,
    select-swept bucket pattern b k db.object_chunks kept,
  )
]

pub delete_prefix_in_tx-calm :
    (bucket prefix : Text) (db : Db)
    → delete_prefix_in_tx bucket prefix (calm db)
      ≡ (ok tt, calm (swept bucket (prefix_pattern prefix) db))
unfolding delete_prefix_in_tx
delete_prefix_in_tx-calm bucket prefix db =
    let pattern = prefix_pattern prefix in
    let cleared : Db = record db {
      object_chunks = select (λ c. not (hit bucket pattern c.bucket c.key)) db.object_chunks;
    } in
    bind_ok (exec (delete_chunks_like bucket pattern)) _ (calm db) tt
      (exec_ok (delete_chunks_like bucket pattern) {db' = cleared} refl)
    ∙ exec_ok (delete_objects_like bucket pattern) {db' = swept bucket pattern db} refl

delete_prefix-calm :
    (bucket prefix : Text) (db : Db)
    → delete_prefix bucket prefix (calm db)
      ≡ (ok tt, calm (swept bucket (prefix_pattern prefix) db))
unfolding delete_prefix
delete_prefix-calm bucket prefix db =
    transaction_ok (delete_prefix_in_tx bucket prefix) db tt
      (swept bucket (prefix_pattern prefix) db) (delete_prefix_in_tx-calm bucket prefix db)

-- Below a prefix, up to the case of ASCII letters.
abbrev pub is_below : Text → Text → Bool
is_below prefix k = has_prefix (map lower_byte k) (map lower_byte prefix)

-- On a session whose engine refuses nothing, DeletePrefix returns; GetObject then finds no object of
-- the bucket whose key begins with the prefix up to the case of ASCII letters, and elsewhere what it
-- found before.
pub get_object-delete_prefix :
    (bucket prefix b k : Text) (db : Db)
    → ((delete_prefix bucket prefix (calm db)).0 ≡ ok tt)
      × ((get_object b k (delete_prefix bucket prefix (calm db)).1).0 ≡ (
          if text_eq b bucket && is_below prefix k
          then err not_found
          else (get_object b k (calm db)).0))
get_object-delete_prefix bucket prefix b k db =
    rw
      (
        delete_prefix-calm bucket prefix db,
        get_object-eq-view b k (swept bucket (prefix_pattern prefix) db),
        get_object-eq-view b k db,
        view-swept bucket (prefix_pattern prefix) b k db,
        like-prefix_pattern prefix k,
      )
      (refl, refl)
