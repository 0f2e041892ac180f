-- ===== src/Metadata/Operations/Shown.antt =====
-- Deletes that leave an object and its chunks as GetObject shows them.
use tg_files.Common.{
  Text, Bool, true, false, not, ◌&&◌, List, [], ◌∷◌, ◌≡◌, refl, arith, select, text_eq, text_eq_iff,
  Result, ok, Bool-cases, inl, inr, subst, ok_injective,
}
use tg_files.Metadata.Types.{Object, ObjectRow, Chunk, Db}
use tg_files.Metadata.Sql.{DbError, exec}
use tg_files.Metadata.Sql.Preserves.{
  Preserves, Preserves-exec, Preserves-bind, Preserves-transaction,
}
use tg_files.Metadata.Table.{find, without}
use tg_files.Metadata.Statements.{
  same_object, object_key, of_object, delete_chunks, delete_object_row, delete_chunks_like,
  delete_objects_like,
}
use tg_files.Metadata.Like.{like, prefix_pattern, like-prefix_pattern}
use tg_files.Metadata.Objects.{delete_object, delete_object_in_tx}
use tg_files.Metadata.Objects.RoundTrip.{view}
use tg_files.Metadata.Prefixes.{delete_prefix, delete_prefix_in_tx}
use tg_files.Metadata.Prefixes.Deletes.{is_below}
use tg_files.Metadata.Buckets.{
  delete_bucket, delete_chunks_of_bucket, delete_objects_of_bucket, delete_bucket_row,
}

module _ (b k : Text) where
  -- What GetObject returns for the key is `v`.
  abbrev pub Shows : Result DbError (Object × List Chunk) → Db → Type 0
  Shows v db = view b k db ≡ v

  find-select :
      (p : Text → Text → Bool) (rows : List ObjectRow)
      → p b k ≡ true
      → find object_key same_object (b, k) (select (λ r. p r.bucket r.key) rows)
        ≡ find object_key same_object (b, k) rows
  unfolding find same_object
  find-select p [] h = refl
  find-select p (r ∷ rows) h = elim (Bool-cases (text_eq r.bucket b && text_eq r.key k)) [
    | inl mine ↦
        let eb : r.bucket ≡ b = ground (arith, text_eq_iff r.bucket b) in
        let ek : r.key ≡ k = ground (arith, text_eq_iff r.key k) in
        let kept : p r.bucket r.key ≡ true = rw (eb, ek) h in ground arith
    | inr other ↦ ground (arith, find-select p rows h)
  ]

  select-select :
      (p : Text → Text → Bool) (rows : List Chunk)
      → p b k ≡ true
      → select (of_object b k) (select (λ c. p c.bucket c.key) rows) ≡ select (of_object b k) rows
  unfolding of_object
  select-select p [] h = refl
  select-select p (r ∷ rows) h = elim (Bool-cases (text_eq r.bucket b && text_eq r.key k)) [
    | inl mine ↦
        let eb : r.bucket ≡ b = ground (arith, text_eq_iff r.bucket b) in
        let ek : r.key ≡ k = ground (arith, text_eq_iff r.key k) in
        let kept : p r.bucket r.key ≡ true = rw (eb, ek) h in ground (arith, select-select p rows h)
    | inr other ↦ ground (arith, select-select p rows h)
  ]

  module _ (v : Result DbError (Object × List Chunk)) (p : Text → Text → Bool)
      (kept : p b k ≡ true) where
    -- A DELETE that keeps the rows of the key.
    pub Shows-chunks : Preserves (Shows v) (
        exec (λ db.
          ok (record db { object_chunks = select (λ c. p c.bucket c.key) db.object_chunks })))
    Shows-chunks = Preserves-exec _ (λ db db' e start.
        subst (Shows v) (ok_injective e) (rw (select-select p db.object_chunks kept) start))

    pub Shows-objects :
        Preserves
          (Shows v)
          (exec (λ db. ok (record db { objects = select (λ r. p r.bucket r.key) db.objects })))
    Shows-objects = Preserves-exec _ (λ db db' e start.
        subst (Shows v) (ok_injective e) (rw (find-select p db.objects kept) start))

  module _ (v : Result DbError (Object × List Chunk)) (bucket : Text) where
    -- DeleteObject of another key, and what it has in common with MoveObject.
    pub delete_object_in_tx-Shows :
        (key : Text)
        → text_eq b bucket && text_eq k key ≡ false
        → Preserves (Shows v) (delete_object_in_tx bucket key)
    unfolding delete_object_in_tx of_object same_object without delete_chunks delete_object_row
    delete_object_in_tx-Shows key other =
        let p : Text → Text → Bool = λ c l. not (text_eq c bucket && text_eq l key) in
        let kept : p b k ≡ true = ground arith in
        let chunks : Preserves (Shows v) (exec (delete_chunks bucket key)) =
          Shows-chunks v p kept in
        let objects : Preserves (Shows v) (exec (delete_object_row bucket key)) =
          Shows-objects v p kept in
        Preserves-bind _ _ chunks (λ x. objects)

    pub delete_object-Shows :
        (key : Text)
        → text_eq b bucket && text_eq k key ≡ false
        → Preserves (Shows v) (delete_object bucket key)
    unfolding delete_object
    delete_object-Shows key other = Preserves-transaction _ (delete_object_in_tx-Shows key other)

    -- DeletePrefix of a prefix that the key is not below, and what it has in common with MovePrefix.
    pub delete_prefix_in_tx-Shows :
        (prefix : Text)
        → text_eq b bucket && is_below prefix k ≡ false
        → Preserves (Shows v) (delete_prefix_in_tx bucket prefix)
    unfolding delete_prefix_in_tx delete_chunks_like delete_objects_like
    delete_prefix_in_tx-Shows prefix other =
        let pattern = prefix_pattern prefix in
        let p : Text → Text → Bool = λ c l. not (text_eq c bucket && like pattern l) in
        let kept : p b k ≡ true = rw (like-prefix_pattern prefix k) (ground arith) in
        let chunks : Preserves (Shows v) (exec (delete_chunks_like bucket pattern)) =
          Shows-chunks v p kept in
        let objects : Preserves (Shows v) (exec (delete_objects_like bucket pattern)) =
          Shows-objects v p kept in
        Preserves-bind _ _ chunks (λ x. objects)

    pub delete_prefix-Shows :
        (prefix : Text)
        → text_eq b bucket && is_below prefix k ≡ false
        → Preserves (Shows v) (delete_prefix bucket prefix)
    unfolding delete_prefix
    delete_prefix-Shows prefix other =
        Preserves-transaction _ (delete_prefix_in_tx-Shows prefix other)

    -- DeleteBucket of another bucket.
    pub delete_bucket-Shows : text_eq b bucket ≡ false → Preserves (Shows v) (delete_bucket bucket)
    unfolding delete_bucket delete_chunks_of_bucket delete_objects_of_bucket delete_bucket_row
    delete_bucket-Shows other =
        let p : Text → Text → Bool = λ c l. not (text_eq c bucket) in
        let kept : p b k ≡ true = ground arith in
        let chunks : Preserves (Shows v) (exec (delete_chunks_of_bucket bucket)) =
          Shows-chunks v p kept in
        let objects : Preserves (Shows v) (exec (delete_objects_of_bucket bucket)) =
          Shows-objects v p kept in
        let row : Preserves (Shows v) (exec (delete_bucket_row bucket)) =
          Preserves-exec _ (λ db db' e start. subst (Shows v) (ok_injective e) start) in
        Preserves-transaction _
          (Preserves-bind _ _ chunks (λ x. Preserves-bind _ _ objects (λ y. row)))
