-- ===== src/Metadata/Operations/Copying.antt =====
-- Copies and moves that leave an object and its chunks as GetObject shows them.
use tg_files.Common.{
  Text, Bool, true, false, not, ◌&&◌, List, [], ◌∷◌, ◌++◌, ◌≡◌, refl, sym, subst, arith, text_eq,
  text_eq_iff, Result, ok, err, Option, none, some, map, append-nil, Bool-cases, inl, inr,
  ok_injective,
}
use tg_files.Golang.Strings.{has_prefix, lower_byte}
use tg_files.Metadata.Types.{Object, ObjectRow, Chunk, Db, Time}
use tg_files.Metadata.Sql.{DbError, constraint, exec}
use tg_files.Metadata.Sql.Preserves.{
  Preserves, Preserves-exec, Preserves-bind, Preserves-pure, preserve_rules,
}
use tg_files.Metadata.Table.{has_key, insert, find-upsert}
use tg_files.Metadata.Statements.{
  same_object, object_key, object_test, of_object, delete_chunks, upsert_object, insert_chunk,
  chunk_key, same_chunk,
}
use tg_files.Metadata.Objects.{
  put_object_in_tx, insert_chunks, row_of_object, copied_object, copy_chunks_for_key, copy_in_tx,
  copy_object, move_object, get_object_in_tx, object_exists_in_tx, scan_object, delete_object_in_tx,
}
use tg_files.Metadata.Objects.RoundTrip.{select-append}
use tg_files.Metadata.Prefixes.{
  copy_each, copy_prefix_in_tx, copy_prefix, move_prefix, moved_key, delete_prefix_in_tx,
}
use tg_files.Metadata.Prefixes.Deletes.{is_below}
use tg_files.Metadata.Operations.Shown.{Shows, Shows-chunks}

scan_object-Preserves : (P : Db → Type 0) (row : Option ObjectRow) → Preserves P (scan_object row)
unfolding scan_object
scan_object-Preserves P none = search preserve_rules
scan_object-Preserves P (some row) = search preserve_rules

-- What the writes of the copies keep, the methods keep.
module _ (P : Db → Type 0) (bucket src dst : Text) (overwrite : Bool) (now : Time) where
  -- `P` is kept by a write of the copy under the key.
  abbrev pub KeepsCopies : Text → Type 0
  KeepsCopies key =
      (o : Object) (chunks : List Chunk)
      → Preserves P (
          put_object_in_tx (copied_object o bucket key now) (copy_chunks_for_key chunks bucket key))

  copy_in_tx-Preserves : KeepsCopies dst → Preserves P (copy_in_tx bucket src dst overwrite now)
  unfolding copy_in_tx get_object_in_tx object_exists_in_tx
  copy_in_tx-Preserves h = search (preserve_rules, scan_object-Preserves, h) depth 9

  pub copy_object-Preserves :
      KeepsCopies dst → Preserves P (copy_object bucket src dst overwrite now)
  unfolding copy_object
  copy_object-Preserves h = search (preserve_rules, copy_in_tx-Preserves, h)

  pub move_object-Preserves :
      KeepsCopies dst
      → Preserves P (delete_object_in_tx bucket src)
      → Preserves P (move_object bucket src dst overwrite now)
  unfolding move_object
  move_object-Preserves h gone = search (preserve_rules, copy_in_tx-Preserves, h)

  -- Here `src` and `dst` are prefixes.
  copy_each-Preserves :
      ((rest : Text) → KeepsCopies (dst ++ rest))
      → (created : Bool) (objects : List Object)
      → Preserves P (copy_each bucket src dst overwrite now created objects)
  unfolding copy_each moved_key object_exists_in_tx
  copy_each-Preserves h created [] = search preserve_rules
  copy_each-Preserves h created (o ∷ objects) =
      let rest : (c : Bool) → Preserves P (copy_each bucket src dst overwrite now c objects) =
        λ c. copy_each-Preserves h c objects in
      search (preserve_rules, h, rest) depth 9

  copy_prefix_in_tx-Preserves :
      ((rest : Text) → KeepsCopies (dst ++ rest))
      → Preserves P (copy_prefix_in_tx bucket src dst overwrite now)
  unfolding copy_prefix_in_tx
  copy_prefix_in_tx-Preserves h = search (preserve_rules, copy_each-Preserves, h)

  pub copy_prefix-Preserves :
      ((rest : Text) → KeepsCopies (dst ++ rest))
      → Preserves P (copy_prefix bucket src dst overwrite now)
  unfolding copy_prefix
  copy_prefix-Preserves h = search (preserve_rules, copy_prefix_in_tx-Preserves, h)

  pub move_prefix-Preserves :
      ((rest : Text) → KeepsCopies (dst ++ rest))
      → Preserves P (delete_prefix_in_tx bucket src)
      → Preserves P (move_prefix bucket src dst overwrite now)
  unfolding move_prefix
  move_prefix-Preserves h gone = search (preserve_rules, copy_prefix_in_tx-Preserves, h)

has_prefix-empty : (s : Text) → has_prefix s [] ≡ true
unfolding has_prefix
has_prefix-empty [] = refl
has_prefix-empty (c ∷ s) = refl

pub is_below-append : (prefix rest : Text) → is_below prefix (prefix ++ rest) ≡ true
unfolding has_prefix
is_below-append [] rest = has_prefix-empty (map lower_byte rest)
is_below-append (c ∷ prefix) rest = ground (arith, is_below-append prefix rest)

insert_chunk_ok :
    (chunk : Chunk) (db db' : Db)
    → insert_chunk chunk db ≡ ok db'
    → record db { object_chunks = db.object_chunks ++ chunk ∷ [] } ≡ db'
unfolding insert_chunk insert
insert_chunk_ok chunk db db' e =
    elim (Bool-cases (has_key chunk_key same_chunk (chunk_key chunk) db.object_chunks)) [
      | inl taken ↦
          let clash : ◌≡◌ {A = Result DbError Db} (err constraint) (ok db') =
            rw (taken, insert_chunk, insert) at e in
          cc
      | inr fresh ↦ ok_injective (rw (fresh, insert_chunk, insert) at e)
    ]

module _ (b k : Text) (v : Result DbError (Object × List Chunk)) where
  -- A chunk of another object.
  insert_chunk-Shows :
      (chunk : Chunk)
      → of_object b k chunk ≡ false
      → Preserves (Shows b k v) (exec (insert_chunk chunk))
  insert_chunk-Shows chunk other = Preserves-exec _ (λ db db' e start.
      subst (Shows b k v) (insert_chunk_ok chunk db db' e)
        (rw (select-append (of_object b k) db.object_chunks (chunk ∷ []), other, append-nil) start))

  upsert_object-Shows :
      (row : ObjectRow)
      → same_object (row.bucket, row.key) (b, k) ≡ false
      → Preserves (Shows b k v) (exec (upsert_object row))
  unfolding upsert_object
  upsert_object-Shows row other = Preserves-exec _ (λ db db' e start.
      subst (Shows b k v) (ok_injective e)
        (rw (find-upsert object_key same_object object_test row (b, k) db.objects, other) start))

  module _ (bucket key : Text) (other : text_eq b bucket && text_eq k key ≡ false) where
    other_way : text_eq bucket b && text_eq key k ≡ false
    other_way =
        ground
          (arith, text_eq_iff b bucket, text_eq_iff bucket b, text_eq_iff k key, text_eq_iff key k)

    insert_chunks-Shows :
        (chunks : List Chunk)
        → Preserves (Shows b k v) (insert_chunks (copy_chunks_for_key chunks bucket key))
    unfolding insert_chunks copy_chunks_for_key of_object
    insert_chunks-Shows [] = Preserves-pure tt
    insert_chunks-Shows (c ∷ chunks) =
        Preserves-bind _ _ (insert_chunk-Shows (record c { bucket = bucket; key = key }) other_way)
          (λ _. insert_chunks-Shows chunks)

    -- The copy that is written under another key.
    pub put_copy-Shows :
        (o : Object) (chunks : List Chunk) (now : Time)
        → Preserves (Shows b k v) (
            put_object_in_tx
              (copied_object o bucket key now)
              (copy_chunks_for_key chunks bucket key))
    unfolding put_object_in_tx copied_object row_of_object delete_chunks of_object same_object
    put_copy-Shows o chunks now =
        let kept : not (text_eq b bucket && text_eq k key) ≡ true = ground arith in
        let row = row_of_object (copied_object o bucket key now) in
        Preserves-bind _ _
          (Shows-chunks b k v (λ c l. not (text_eq c bucket && text_eq l key)) kept)
          (λ _.
            Preserves-bind _ _ (upsert_object-Shows row other_way)
              (λ _. insert_chunks-Shows chunks))

  -- A copy under a key below a prefix that `k` is not below.
  pub put_below-Shows :
      (bucket prefix : Text)
      → text_eq b bucket && is_below prefix k ≡ false
      → (rest : Text) (o : Object) (chunks : List Chunk) (now : Time)
      → Preserves (Shows b k v) (
          put_object_in_tx
            (copied_object o bucket (prefix ++ rest) now)
            (copy_chunks_for_key chunks bucket (prefix ++ rest)))
  put_below-Shows bucket prefix other rest =
      let apart : text_eq b bucket && text_eq k (prefix ++ rest) ≡ false =
        elim (Bool-cases (text_eq k (prefix ++ rest))) [
          | inl same ↦
              let below : is_below prefix k ≡ true =
                subst (λ l. is_below prefix l ≡ true)
                  (sym ((text_eq_iff k (prefix ++ rest)).0 same)) (is_below-append prefix rest) in
              ground arith
          | inr differs ↦ ground arith
        ] in
      put_copy-Shows bucket (prefix ++ rest) apart
