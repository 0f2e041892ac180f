-- ===== src/Metadata/Operations/Keys.antt =====
-- No operation puts a primary key into two rows.
use tg_files.Common.{
  ok_injective, subst, ◌≡◌, Text, text_eq, List, [], ◌∷◌, ok, arith, Option-cases, inl, inr,
}
use tg_files.Metadata.Types.{Db, Object, Chunk, ObjectRow, LinkRow, BucketRow}
use tg_files.Metadata.Sql.{exec}
use tg_files.Metadata.Sql.Preserves.{Preserves, Preserves-exec, preserve_rules}
use tg_files.Metadata.Table.{Unique, Unique-select, Unique-upsert, Unique-insert, insert, without}
use tg_files.Metadata.Statements.{
  object_key, same_object, object_test, chunk_key, same_chunk, chunk_test, bucket_key, link_key,
  delete_chunks, upsert_object, insert_chunk, delete_object_row, delete_chunks_like,
  delete_objects_like,
}
use tg_files.Metadata.Objects.{insert_chunks, put_object_in_tx}

-- The primary keys of `migrate`.
pub record HasUniqueKeys (db : Db) : Type 0 where
  pub buckets : Unique bucket_key text_eq db.buckets
  pub objects : Unique object_key same_object db.objects
  pub chunks : Unique chunk_key same_chunk db.object_chunks
  pub links : Unique link_key text_eq db.direct_links

module _ {db : Db} (u : HasUniqueKeys db) where
  pub with_buckets :
      (rows : List BucketRow)
      → Unique bucket_key text_eq rows
      → HasUniqueKeys (record db { buckets = rows })
  with_buckets rows h = record {
    buckets = h;
    objects = u.objects;
    chunks = u.chunks;
    links = u.links;
  }

  pub with_objects :
      (rows : List ObjectRow)
      → Unique object_key same_object rows
      → HasUniqueKeys (record db { objects = rows })
  with_objects rows h = record {
    buckets = u.buckets;
    objects = h;
    chunks = u.chunks;
    links = u.links;
  }

  pub with_chunks :
      (rows : List Chunk)
      → Unique chunk_key same_chunk rows
      → HasUniqueKeys (record db { object_chunks = rows })
  with_chunks rows h = record {
    buckets = u.buckets;
    objects = u.objects;
    chunks = h;
    links = u.links;
  }

  pub with_links :
      (rows : List LinkRow)
      → Unique link_key text_eq rows
      → HasUniqueKeys (record db { direct_links = rows })
  with_links rows h = record {
    buckets = u.buckets;
    objects = u.objects;
    chunks = u.chunks;
    links = h;
  }

-- A statement whose effect is a function of the database.
pub Preserves-effect :
    (effect : Db → Db)
    → ((db : Db) → HasUniqueKeys db → HasUniqueKeys (effect db))
    → Preserves HasUniqueKeys (exec (λ db. ok (effect db)))
Preserves-effect effect keep =
    Preserves-exec _ (λ db db' e h. subst HasUniqueKeys (ok_injective e) (keep db h))

pub delete_chunks-HasUniqueKeys :
    (bucket key : Text) → Preserves HasUniqueKeys (exec (delete_chunks bucket key))
unfolding delete_chunks
delete_chunks-HasUniqueKeys bucket key =
    Preserves-effect _
      (λ db u. with_chunks u _ (Unique-select chunk_key same_chunk _ db.object_chunks u.chunks))

pub delete_object_row-HasUniqueKeys :
    (bucket key : Text) → Preserves HasUniqueKeys (exec (delete_object_row bucket key))
unfolding delete_object_row without
delete_object_row-HasUniqueKeys bucket key =
    Preserves-effect _
      (λ db u. with_objects u _ (Unique-select object_key same_object _ db.objects u.objects))

pub upsert_object-HasUniqueKeys :
    (row : ObjectRow) → Preserves HasUniqueKeys (exec (upsert_object row))
unfolding upsert_object
upsert_object-HasUniqueKeys row = Preserves-effect _ (λ db u.
    with_objects u _ (Unique-upsert object_key same_object object_test row db.objects u.objects))

pub insert_chunk-HasUniqueKeys :
    (chunk : Chunk) → Preserves HasUniqueKeys (exec (insert_chunk chunk))
unfolding insert_chunk
insert_chunk-HasUniqueKeys chunk = Preserves-exec _ λ db db' e u.
    elim (Option-cases (insert chunk_key same_chunk chunk db.object_chunks)) [
      | inl clash ↦ ground arith
      | inr (rows, fresh) ↦
          let e' : record db { object_chunks = rows } ≡ db' = ground arith in
          subst HasUniqueKeys e' (
            with_chunks u rows (
              Unique-insert chunk_key same_chunk chunk_test chunk db.object_chunks rows fresh
                u.chunks))
    ]

pub delete_chunks_like-HasUniqueKeys :
    (bucket pattern : Text) → Preserves HasUniqueKeys (exec (delete_chunks_like bucket pattern))
unfolding delete_chunks_like
delete_chunks_like-HasUniqueKeys bucket pattern =
    Preserves-effect _
      (λ db u. with_chunks u _ (Unique-select chunk_key same_chunk _ db.object_chunks u.chunks))

pub delete_objects_like-HasUniqueKeys :
    (bucket pattern : Text) → Preserves HasUniqueKeys (exec (delete_objects_like bucket pattern))
unfolding delete_objects_like
delete_objects_like-HasUniqueKeys bucket pattern =
    Preserves-effect _
      (λ db u. with_objects u _ (Unique-select object_key same_object _ db.objects u.objects))

pub insert_chunks-HasUniqueKeys :
    (chunks : List Chunk) → Preserves HasUniqueKeys (insert_chunks chunks)
unfolding insert_chunks
insert_chunks-HasUniqueKeys [] = search preserve_rules
insert_chunks-HasUniqueKeys (chunk ∷ chunks) =
    search (preserve_rules, insert_chunk-HasUniqueKeys chunk, insert_chunks-HasUniqueKeys chunks)

pub put_object_in_tx-HasUniqueKeys :
    (object : Object) (chunks : List Chunk)
    → Preserves HasUniqueKeys (put_object_in_tx object chunks)
unfolding put_object_in_tx
put_object_in_tx-HasUniqueKeys object chunks = search (
  preserve_rules, delete_chunks-HasUniqueKeys, upsert_object-HasUniqueKeys,
  insert_chunks-HasUniqueKeys,
)
