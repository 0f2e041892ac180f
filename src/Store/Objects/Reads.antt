-- ===== src/Store/Objects/Reads.antt =====
-- What GetObject with a range yields of an object in the metadata store.
use tg_files.Common.{
  ℕ, ◌+◌, ◌-◌, ◌≤◌, ◌<◌, Text, ◌≡◌, true, List, some, ok, take, drop, length, ap, none, [], ◌∷◌,
  ◌++◌, take_all, refl, arith, ◌∙◌,
}
use tg_files.Golang.Int64.{pos, int64_max}
use tg_files.Metadata.Types.{Object, Chunk}
use tg_files.Metadata.Objects
use tg_files.Store.Multipart.{ObjectStore, head_bucket, startup_names}
use tg_files.Store.Multipart.Layout.{chunk_refs_from_metadata}
use tg_files.Store.UploadStrategy.{one_of}
use tg_files.Store.Range.Reassembly.{
  Contiguous, object_bytes, copied-pos, copy_all-select_chunks_for_range,
}
use tg_files.Store.Objects.{read_object, get_object, selected_chunks, whole_chunks}
use tg_files.Store.Range.{ChunkRef, copy_all}

pub read_object-range :
    (content : Text → Text) (bucket key : Text) (a b : ℕ) (s : ObjectStore) (object : Object)
    (chunks : List Chunk)
    → one_of bucket (startup_names s) ≡ true
    → (Objects.get_object bucket key s.session).0 ≡ ok (object, chunks)
    → Contiguous content 0 (chunk_refs_from_metadata chunks)
    → a ≤ b
    → b < length (object_bytes content (chunk_refs_from_metadata chunks))
    → length (object_bytes content (chunk_refs_from_metadata chunks)) ≤ int64_max
    → (read_object content bucket key (some (record { start = pos a; end = pos b })) s).0
      ≡ ok (
        object,
        take (b + 1 - a) (drop a (object_bytes content (chunk_refs_from_metadata chunks))),
      )
unfolding read_object get_object head_bucket selected_chunks
read_object-range content bucket key a b s object chunks served found contiguous h k fits =
    rw (served, found, read_object, get_object, head_bucket)
      (ap (λ t. ok (object, t))
        (copy_all-select_chunks_for_range content (chunk_refs_from_metadata chunks) a b h k fits
          contiguous))

copy_all-whole_chunks :
    (content : Text → Text) (chunks : List ChunkRef) (offset : ℕ)
    → Contiguous content offset chunks
    → copy_all content (whole_chunks chunks) ≡ object_bytes content chunks
unfolding copy_all whole_chunks
copy_all-whole_chunks content [] offset h = refl
copy_all-whole_chunks content (chunk ∷ chunks) offset (at_offset, of_size, rest) =
    let t = content chunk.file_id in
    let whole = copied-pos chunk 0 (length t) t ∙ take_all (length t) t (omega arith) in
    rw (of_size, whole)
      (ap (λ u. t ++ u) (copy_all-whole_chunks content chunks (offset + length t) rest))

-- GetObject without a range, of an object of a served bucket that the metadata store finds, with
-- chunks that follow one another without a gap, as long as their files, yields the object and the
-- bytes of all of its files, one behind the other.
pub read_object-whole_chunks :
    (content : Text → Text) (bucket key : Text) (s : ObjectStore) (object : Object)
    (chunks : List Chunk)
    → one_of bucket (startup_names s) ≡ true
    → (Objects.get_object bucket key s.session).0 ≡ ok (object, chunks)
    → Contiguous content 0 (chunk_refs_from_metadata chunks)
    → (read_object content bucket key none s).0
      ≡ ok (object, object_bytes content (chunk_refs_from_metadata chunks))
unfolding read_object get_object head_bucket selected_chunks
read_object-whole_chunks content bucket key s object chunks served found contiguous =
    rw (served, found, read_object, get_object, head_bucket)
      (ap (λ t. ok (object, t))
        (copy_all-whole_chunks content (chunk_refs_from_metadata chunks) 0 contiguous))
