-- ===== src/Metadata/Operations/BucketKeys.antt =====
-- The statements on buckets and direct links put no primary key into two rows.
use tg_files.Common.{Text, text_eq, List, ◌≡◌, arith, subst, Option-cases, inl, inr}
use tg_files.Metadata.Types.{BucketRow, LinkRow}
use tg_files.Metadata.Sql.{exec, exec_counted}
use tg_files.Metadata.Sql.Preserves.{Preserves, Preserves-exec, Preserves-exec_counted}
use tg_files.Metadata.Table.{
  Unique-select, Unique-upsert, Unique-insert, Unique-update, Unique-map, insert, update, without,
}
use tg_files.Metadata.Statements.{
  object_key, same_object, chunk_key, same_chunk, bucket_key, link_key, text_test,
}
use tg_files.Metadata.Buckets.{
  upsert_bucket_row, delete_chunks_of_bucket, delete_objects_of_bucket, delete_bucket_row,
  disable_row, disable_rows, rename_bucket_row, rename_object_rows, rename_chunk_rows,
  renamed_bucket, renamed_object, renamed_chunk,
}
use tg_files.Metadata.Links.{insert_link, revoke_rows, revoked_row, click_rows, clicked_row}
use tg_files.Metadata.Operations.Keys.{
  HasUniqueKeys, Preserves-effect, with_buckets, with_objects, with_chunks, with_links,
}

pub upsert_bucket_row-HasUniqueKeys :
    (row : BucketRow) → Preserves HasUniqueKeys (exec (upsert_bucket_row row))
unfolding upsert_bucket_row
upsert_bucket_row-HasUniqueKeys row =
    Preserves-effect _ (λ db u.
      with_buckets u _ (Unique-upsert bucket_key text_eq text_test row db.buckets u.buckets))

module _ (bucket : Text) where
  pub delete_chunks_of_bucket-HasUniqueKeys :
      Preserves HasUniqueKeys (exec (delete_chunks_of_bucket bucket))
  unfolding delete_chunks_of_bucket
  delete_chunks_of_bucket-HasUniqueKeys =
      Preserves-effect _
        (λ db u. with_chunks u _ (Unique-select chunk_key same_chunk _ db.object_chunks u.chunks))

  pub delete_objects_of_bucket-HasUniqueKeys :
      Preserves HasUniqueKeys (exec (delete_objects_of_bucket bucket))
  unfolding delete_objects_of_bucket
  delete_objects_of_bucket-HasUniqueKeys =
      Preserves-effect _
        (λ db u. with_objects u _ (Unique-select object_key same_object _ db.objects u.objects))

  pub delete_bucket_row-HasUniqueKeys : Preserves HasUniqueKeys (exec (delete_bucket_row bucket))
  unfolding delete_bucket_row without
  delete_bucket_row-HasUniqueKeys =
      Preserves-effect _
        (λ db u. with_buckets u _ (Unique-select bucket_key text_eq _ db.buckets u.buckets))

bucket_key-disable_row :
    (keep_names : List Text) (r : BucketRow) → bucket_key (disable_row keep_names r) ≡ bucket_key r
unfolding disable_row
bucket_key-disable_row keep_names r = ground arith

pub disable_rows-HasUniqueKeys :
    (keep_names : List Text) → Preserves HasUniqueKeys (exec (disable_rows keep_names))
unfolding disable_rows
disable_rows-HasUniqueKeys keep_names = Preserves-effect _ λ db u. with_buckets u _ (
    Unique-map bucket_key text_eq (disable_row keep_names) db.buckets
      (bucket_key-disable_row keep_names) u.buckets)

module _ (old_name new_name : Text) where
  pub rename_bucket_row-HasUniqueKeys :
      Preserves HasUniqueKeys (exec (rename_bucket_row old_name new_name))
  unfolding rename_bucket_row
  rename_bucket_row-HasUniqueKeys = Preserves-exec _ λ db db' e u.
      elim (Option-cases
        (update bucket_key text_eq (renamed_bucket old_name new_name) db.buckets)) [
          | inl clash ↦ ground arith
          | inr (rows, fine) ↦
              let e' : record db { buckets = rows } ≡ db' = ground arith in
              subst HasUniqueKeys e' (
                with_buckets u rows (
                  Unique-update bucket_key text_eq (renamed_bucket old_name new_name) db.buckets
                    rows fine))
        ]

  pub rename_object_rows-HasUniqueKeys :
      Preserves HasUniqueKeys (exec (rename_object_rows old_name new_name))
  unfolding rename_object_rows
  rename_object_rows-HasUniqueKeys = Preserves-exec _ λ db db' e u.
      elim (Option-cases
        (update object_key same_object (renamed_object old_name new_name) db.objects)) [
          | inl clash ↦ ground arith
          | inr (rows, fine) ↦
              let e' : record db { objects = rows } ≡ db' = ground arith in
              subst HasUniqueKeys e' (
                with_objects u rows (
                  Unique-update object_key same_object (renamed_object old_name new_name) db.objects
                    rows fine))
        ]

  pub rename_chunk_rows-HasUniqueKeys :
      Preserves HasUniqueKeys (exec (rename_chunk_rows old_name new_name))
  unfolding rename_chunk_rows
  rename_chunk_rows-HasUniqueKeys = Preserves-exec _ λ db db' e u.
      elim (Option-cases
        (update chunk_key same_chunk (renamed_chunk old_name new_name) db.object_chunks)) [
          | inl clash ↦ ground arith
          | inr (rows, fine) ↦
              let e' : record db { object_chunks = rows } ≡ db' = ground arith in
              subst HasUniqueKeys e' (
                with_chunks u rows (
                  Unique-update chunk_key same_chunk (renamed_chunk old_name new_name)
                    db.object_chunks rows fine))
        ]

pub insert_link-HasUniqueKeys : (row : LinkRow) → Preserves HasUniqueKeys (exec (insert_link row))
unfolding insert_link
insert_link-HasUniqueKeys row = Preserves-exec _ λ db db' e u.
    elim (Option-cases (insert link_key text_eq row db.direct_links)) [
      | inl clash ↦ ground arith
      | inr (rows, fresh) ↦
          let e' : record db { direct_links = rows } ≡ db' = ground arith in
          subst HasUniqueKeys e' (
            with_links u rows
              (Unique-insert link_key text_eq text_test row db.direct_links rows fresh u.links))
    ]

module _ (token : Text) where
  link_key-revoked_row : (r : LinkRow) → link_key (revoked_row token r) ≡ link_key r
  unfolding revoked_row
  link_key-revoked_row r = ground arith

  link_key-clicked_row : (r : LinkRow) → link_key (clicked_row token r) ≡ link_key r
  unfolding clicked_row
  link_key-clicked_row r = ground arith

  pub revoke_rows-HasUniqueKeys : Preserves HasUniqueKeys (exec_counted (revoke_rows token))
  unfolding revoke_rows
  revoke_rows-HasUniqueKeys = Preserves-exec_counted _ λ db u.
      with_links u _ (
        Unique-map link_key text_eq (revoked_row token) db.direct_links link_key-revoked_row
          u.links)

  pub click_rows-HasUniqueKeys : Preserves HasUniqueKeys (exec (click_rows token))
  unfolding click_rows
  click_rows-HasUniqueKeys = Preserves-effect _ λ db u.
      with_links u _ (
        Unique-map link_key text_eq (clicked_row token) db.direct_links link_key-clicked_row
          u.links)
