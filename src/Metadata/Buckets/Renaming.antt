-- ===== src/Metadata/Buckets/Renaming.antt =====
-- The rows that RenameBucket rewrites.
use tg_files.Common.{
  Text, true, false, List, [], ◌∷◌, ◌≡◌, refl, arith, none, some, text_eq, text_eq_iff, map, select,
  All, ap, ◌∙◌,
}
use tg_files.Metadata.Types.{BucketRow, ObjectRow, Chunk}
use tg_files.Metadata.Table.{find, has_key, no_clash, Unique}
use tg_files.Metadata.Statements.{
  bucket_key, object_key, chunk_key, same_object, same_chunk, of_object, order_by, sorted_insert,
  part_before,
}
use tg_files.Metadata.Buckets.{renamed_bucket, renamed_object, renamed_chunk}

module _ (old new : Text) where
  -- No row belongs to the new name.
  abbrev pub AreFree : List ObjectRow → Type 0
  AreFree = All (λ r. text_eq r.bucket new ≡ false)

  abbrev pub AreFreeChunks : List Chunk → Type 0
  AreFreeChunks = All (λ c. text_eq c.bucket new ≡ false)

  has_key-renamed_object :
      (r : ObjectRow) (rows : List ObjectRow)
      → text_eq r.bucket new ≡ false
      → AreFree rows
      → has_key object_key same_object
          (object_key (renamed_object old new r))
          (map (renamed_object old new) rows)
        ≡ has_key object_key same_object (object_key r) rows
  unfolding has_key renamed_object same_object
  has_key-renamed_object r [] e h = refl
  has_key-renamed_object r (x ∷ xs) e (free, h) = ground (
    arith,
    has_key-renamed_object r xs e h,
    text_eq_iff r.bucket old,
    text_eq_iff x.bucket old,
    text_eq_iff x.bucket r.bucket,
    text_eq_iff x.bucket new,
    text_eq_iff r.bucket new,
    text_eq_iff new new,
    text_eq_iff new r.bucket,
  )

  pub no_clash-renamed_object :
      (rows : List ObjectRow)
      → Unique object_key same_object rows
      → AreFree rows
      → no_clash object_key same_object (map (renamed_object old new) rows) ≡ true
  unfolding no_clash
  no_clash-renamed_object [] u h = refl
  no_clash-renamed_object (x ∷ xs) (fresh, u) (free, h) =
      ground (arith, has_key-renamed_object x xs free h, no_clash-renamed_object xs u h)

  pub find-renamed_object :
      (k : Text) (rows : List ObjectRow)
      → AreFree rows
      → find object_key same_object (new, k) (map (renamed_object old new) rows)
        ≡ elim (find object_key same_object (old, k) rows) [
          | none ↦ none
          | some r ↦ some (record r { bucket = new })
        ]
  unfolding find renamed_object same_object
  find-renamed_object k [] h = refl
  find-renamed_object k (x ∷ xs) (free, h) = ground (
    arith,
    find-renamed_object k xs h,
    text_eq_iff new new,
    text_eq_iff x.bucket old,
    text_eq_iff x.bucket new,
  )

  pub find-renamed_object_old :
      (k : Text) (rows : List ObjectRow)
      → text_eq old new ≡ false
      → find object_key same_object (old, k) (map (renamed_object old new) rows) ≡ none
  unfolding find renamed_object same_object
  find-renamed_object_old k [] other = refl
  find-renamed_object_old k (x ∷ xs) other = ground (
    arith,
    find-renamed_object_old k xs other,
    text_eq_iff old new,
    text_eq_iff new old,
    text_eq_iff x.bucket old,
  )

  pub find-renamed_object_ne :
      (b k : Text) (rows : List ObjectRow)
      → text_eq b old ≡ false
      → text_eq b new ≡ false
      → find object_key same_object (b, k) (map (renamed_object old new) rows)
        ≡ find object_key same_object (b, k) rows
  unfolding find renamed_object same_object
  find-renamed_object_ne b k [] e f = refl
  find-renamed_object_ne b k (x ∷ xs) e f = ground (
    arith,
    find-renamed_object_ne b k xs e f,
    text_eq_iff b old,
    text_eq_iff b new,
    text_eq_iff x.bucket old,
    text_eq_iff x.bucket b,
    text_eq_iff new b,
  )

  has_key-renamed_chunk :
      (r : Chunk) (rows : List Chunk)
      → text_eq r.bucket new ≡ false
      → AreFreeChunks rows
      → has_key chunk_key same_chunk
          (chunk_key (renamed_chunk old new r))
          (map (renamed_chunk old new) rows)
        ≡ has_key chunk_key same_chunk (chunk_key r) rows
  unfolding has_key renamed_chunk same_chunk
  has_key-renamed_chunk r [] e h = refl
  has_key-renamed_chunk r (x ∷ xs) e (free, h) = ground (
    arith,
    has_key-renamed_chunk r xs e h,
    text_eq_iff r.bucket old,
    text_eq_iff x.bucket old,
    text_eq_iff x.bucket r.bucket,
    text_eq_iff x.bucket new,
    text_eq_iff r.bucket new,
    text_eq_iff new new,
    text_eq_iff new r.bucket,
  )

  pub no_clash-renamed_chunk :
      (rows : List Chunk)
      → Unique chunk_key same_chunk rows
      → AreFreeChunks rows
      → no_clash chunk_key same_chunk (map (renamed_chunk old new) rows) ≡ true
  unfolding no_clash
  no_clash-renamed_chunk [] u h = refl
  no_clash-renamed_chunk (x ∷ xs) (fresh, u) (free, h) =
      ground (arith, has_key-renamed_chunk x xs free h, no_clash-renamed_chunk xs u h)

  abbrev pub under_new : Chunk → Chunk
  under_new c = record c { bucket = new }

  pub select-renamed_chunk :
      (k : Text) (rows : List Chunk)
      → AreFreeChunks rows
      → select (of_object new k) (map (renamed_chunk old new) rows)
        ≡ map under_new (select (of_object old k) rows)
  unfolding renamed_chunk of_object
  select-renamed_chunk k [] h = refl
  select-renamed_chunk k (x ∷ xs) (free, h) =
      ground (arith, select-renamed_chunk k xs h, text_eq_iff new new)

  pub select-renamed_chunk_old :
      (k : Text) (rows : List Chunk)
      → text_eq old new ≡ false
      → select (of_object old k) (map (renamed_chunk old new) rows) ≡ []
  unfolding renamed_chunk of_object
  select-renamed_chunk_old k [] other = refl
  select-renamed_chunk_old k (x ∷ xs) other =
      ground (arith, select-renamed_chunk_old k xs other, text_eq_iff old new, text_eq_iff new old)

  pub select-renamed_chunk_ne :
      (b k : Text) (rows : List Chunk)
      → text_eq b old ≡ false
      → text_eq b new ≡ false
      → select (of_object b k) (map (renamed_chunk old new) rows) ≡ select (of_object b k) rows
  unfolding renamed_chunk of_object
  select-renamed_chunk_ne b k [] e f = refl
  select-renamed_chunk_ne b k (x ∷ xs) e f = ground (
    arith,
    select-renamed_chunk_ne b k xs e f,
    text_eq_iff b old,
    text_eq_iff b new,
    text_eq_iff x.bucket old,
    text_eq_iff x.bucket b,
    text_eq_iff new b,
  )

  sorted_insert-under_new :
      (c : Chunk) (cs : List Chunk)
      → sorted_insert part_before (under_new c) (map under_new cs)
        ≡ map under_new (sorted_insert part_before c cs)
  unfolding sorted_insert part_before
  sorted_insert-under_new c [] = refl
  sorted_insert-under_new c (d ∷ cs) = ground (arith, sorted_insert-under_new c cs)

  pub order_by-under_new :
      (cs : List Chunk)
      → order_by part_before (map under_new cs) ≡ map under_new (order_by part_before cs)
  unfolding order_by
  order_by-under_new [] = refl
  order_by-under_new (c ∷ cs) =
      ap (sorted_insert part_before (under_new c)) (order_by-under_new cs)
      ∙ sorted_insert-under_new c (order_by part_before cs)

  has_key-renamed_bucket :
      (r : BucketRow) (rows : List BucketRow)
      → text_eq r.name new ≡ false
      → All (λ b. text_eq b.name new ≡ false) rows
      → has_key bucket_key text_eq
          (bucket_key (renamed_bucket old new r))
          (map (renamed_bucket old new) rows)
        ≡ has_key bucket_key text_eq (bucket_key r) rows
  unfolding has_key renamed_bucket
  has_key-renamed_bucket r [] e h = refl
  has_key-renamed_bucket r (x ∷ xs) e (free, h) = ground (
    arith,
    has_key-renamed_bucket r xs e h,
    text_eq_iff r.name old,
    text_eq_iff x.name old,
    text_eq_iff x.name r.name,
    text_eq_iff x.name new,
    text_eq_iff r.name new,
    text_eq_iff new new,
    text_eq_iff new r.name,
  )

  pub no_clash-renamed_bucket :
      (rows : List BucketRow)
      → Unique bucket_key text_eq rows
      → All (λ b. text_eq b.name new ≡ false) rows
      → no_clash bucket_key text_eq (map (renamed_bucket old new) rows) ≡ true
  unfolding no_clash
  no_clash-renamed_bucket [] u h = refl
  no_clash-renamed_bucket (x ∷ xs) (fresh, u) (free, h) =
      ground (arith, has_key-renamed_bucket x xs free h, no_clash-renamed_bucket xs u h)
