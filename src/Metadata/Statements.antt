-- ===== src/Metadata/Statements.antt =====
-- The SQL statements of metadata/sqlite.go, each as what it reads or does to the tables, and the
-- primary keys of `migrate`.
use tg_files.Common.{
  ℕ, Text, Bool, true, not, ◌&&◌, List, [], ◌∷◌, Option, none, some, ◌≡◌, ◌↔◌, arith, if◌then◌else◌,
  select, text_eq, text_eq_iff, text_lt, ◌==◌, Result, ok, err, length, take,
}
use tg_files.Golang.Int64.{ℤ, pos_part, neg_part, ltb_ℤ}
use tg_files.Metadata.Types.{Chunk, BucketRow, ObjectRow, LinkRow, Db}
use tg_files.Metadata.Sql.{DbError, constraint}
use tg_files.Metadata.Table.{KeyTest, find, upsert, insert, without}
use tg_files.Metadata.Like.{like}

unfoldable pub eqb_ℤ : ℤ → ℤ → Bool
eqb_ℤ a b = pos_part a == pos_part b && neg_part a == neg_part b

-- PRIMARY KEY(bucket, key) of objects, PRIMARY KEY(bucket, key, part_number) of object_chunks
abbrev pub object_key : ObjectRow → Text × Text
object_key row = (row.bucket, row.key)

unfoldable pub same_object : Text × Text → Text × Text → Bool
same_object (b, k) (c, l) = text_eq b c && text_eq k l

abbrev pub chunk_key : Chunk → Text × Text × ℤ
chunk_key chunk = (chunk.bucket, chunk.key, chunk.part_number)

unfoldable pub same_chunk : Text × Text × ℤ → Text × Text × ℤ → Bool
unfolding eqb_ℤ
same_chunk (b, k, p) (c, l, q) = text_eq b c && text_eq k l && eqb_ℤ p q

abbrev pub bucket_key : BucketRow → Text
bucket_key row = row.name

abbrev pub link_key : LinkRow → Text
link_key row = row.token

pub text_test : KeyTest text_eq
text_test = record { same_iff = text_eq_iff }

same_object_iff : (j k : Text × Text) → (same_object j k ≡ true) ↔ (j ≡ k)
unfolding same_object
same_object_iff (b, k) (c, l) = ground (arith, text_eq_iff b c, text_eq_iff k l)

pub object_test : KeyTest same_object
object_test = record { same_iff = same_object_iff }

same_chunk_iff : (j k : Text × Text × ℤ) → (same_chunk j k ≡ true) ↔ (j ≡ k)
unfolding same_chunk
same_chunk_iff (b, k, p) (c, l, q) = ground (arith, text_eq_iff b c, text_eq_iff k l)

pub chunk_test : KeyTest same_chunk
chunk_test = record { same_iff = same_chunk_iff }

-- Is a chunk one of the object?
unfoldable pub of_object : Text → Text → Chunk → Bool
of_object bucket key chunk = text_eq chunk.bucket bucket && text_eq chunk.key key

-- ORDER BY, by insertion; rows of equal rank keep their order.
module _ {A : Type 0} (before : A → A → Bool) where
  unfoldable pub sorted_insert : A → List A → List A
  sorted_insert a [] = a ∷ []
  sorted_insert a (x ∷ xs) =
      let rest = sorted_insert a xs in if before x a then x ∷ rest else a ∷ x ∷ xs

  unfoldable pub order_by : List A → List A
  unfolding sorted_insert
  order_by [] = []
  order_by (x ∷ xs) = sorted_insert x (order_by xs)

-- ORDER BY part_number ASC, ORDER BY key ASC
unfoldable pub part_before : Chunk → Chunk → Bool
part_before x y = ltb_ℤ x.part_number y.part_number

unfoldable pub key_before : ObjectRow → ObjectRow → Bool
key_before x y = text_lt x.key y.key

-- DELETE FROM object_chunks WHERE bucket = ? AND key = ?
unfoldable pub delete_chunks : Text → Text → Db → Result DbError Db
unfolding of_object
delete_chunks bucket key db =
    ok (record db { object_chunks = select (λ c. not (of_object bucket key c)) db.object_chunks })

-- DELETE FROM objects WHERE bucket = ? AND key = ?
unfoldable pub delete_object_row : Text → Text → Db → Result DbError Db
delete_object_row bucket key db =
    ok (record db { objects = without object_key same_object (bucket, key) db.objects })

-- INSERT INTO objects … ON CONFLICT(bucket, key) DO UPDATE SET …
unfoldable pub upsert_object : ObjectRow → Db → Result DbError Db
upsert_object row db = ok (record db { objects = upsert object_key same_object row db.objects })

-- INSERT INTO object_chunks …
unfoldable pub insert_chunk : Chunk → Db → Result DbError Db
insert_chunk chunk db = elim (insert chunk_key same_chunk chunk db.object_chunks) [
  | none ↦ err constraint
  | some rows ↦ ok (record db { object_chunks = rows })
]

-- SELECT … FROM objects WHERE bucket = ? AND key = ?
unfoldable pub select_object : Text → Text → Db → Option ObjectRow
select_object bucket key db = find object_key same_object (bucket, key) db.objects

-- SELECT … FROM object_chunks WHERE bucket = ? AND key = ? ORDER BY part_number ASC
unfoldable pub select_chunks : Text → Text → Db → List Chunk
unfolding of_object order_by part_before
select_chunks bucket key db = order_by part_before (select (of_object bucket key) db.object_chunks)

-- DELETE FROM … WHERE bucket = ? AND key LIKE ? ESCAPE '\'
unfoldable pub delete_chunks_like : Text → Text → Db → Result DbError Db
delete_chunks_like bucket pattern db = ok (record db {
  object_chunks =
      select (λ c. not (text_eq c.bucket bucket && like pattern c.key)) db.object_chunks;
})

unfoldable pub delete_objects_like : Text → Text → Db → Result DbError Db
delete_objects_like bucket pattern db = ok (record db {
  objects = select (λ r. not (text_eq r.bucket bucket && like pattern r.key)) db.objects;
})

-- SELECT … FROM objects WHERE bucket = ? AND key LIKE ? ESCAPE '\' ORDER BY key ASC
unfoldable pub select_objects_like : Text → Text → Db → List ObjectRow
unfolding order_by key_before
select_objects_like bucket pattern db =
    order_by key_before (select (λ r. text_eq r.bucket bucket && like pattern r.key) db.objects)

-- SELECT COUNT(*) FROM objects WHERE bucket = ? AND key LIKE ? ESCAPE '\'
unfoldable pub count_objects_like : Text → Text → Db → ℕ
count_objects_like bucket pattern db =
    length (select (λ (r : ObjectRow). text_eq r.bucket bucket && like pattern r.key) db.objects)

-- … AND key > ? ORDER BY key ASC LIMIT ?
unfoldable pub select_page : Text → Text → Text → ℕ → Db → List ObjectRow
unfolding order_by key_before
select_page bucket pattern after_key limit db = take limit (
    order_by key_before (
      select (λ r. text_eq r.bucket bucket && like pattern r.key && text_lt after_key r.key)
        db.objects))
