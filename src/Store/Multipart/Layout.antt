-- ===== src/Store/Multipart/Layout.antt =====
-- Where buildMultipartObject puts the chunks of the parts, and what a range read of them copies.
use tg_files.Common.{
  ℕ, ◌+◌, ◌≤◌, ◌<◌, Text, List, [], ◌∷◌, ◌++◌, ◌≡◌, refl, arith, true, length, length-append, ap,
}
use tg_files.Golang.Int64.{ℤ, pos, ltb_ℤ, add64, add64_pos, int64_max}
use tg_files.Metadata.Types.{Chunk}
use tg_files.Metadata.Objects.Stored.{Ascending, Ascends}
use tg_files.Store.Range.{ChunkRef}
use tg_files.Store.Range.Reassembly.{Contiguous, object_bytes}
use tg_files.Store.Multipart.{MultipartChunk, MultipartPart}
use tg_files.Store.Multipart.Handlers.{add_chunks, chunk_at, chunks_of_parts}

-- All chunks of the parts, in order.
abbrev pub all_chunks : List MultipartPart → List MultipartChunk
all_chunks [] = []
all_chunks (part ∷ parts) = part.chunks ++ all_chunks parts

module _ (content : Text → Text) where
  -- Every chunk is as long as its file.
  abbrev pub Sized : List MultipartChunk → Type 0
  Sized [] = Unit
  Sized (chunk ∷ chunks) =
      (chunk.size ≡ pos (length (content chunk.telegram_file_id))) × Sized chunks

  -- The files of the chunks one behind the other.
  abbrev pub bytes_of : List MultipartChunk → Text
  bytes_of [] = []
  bytes_of (chunk ∷ chunks) = content chunk.telegram_file_id ++ bytes_of chunks

-- chunkRefsFromMetadata
unfoldable pub chunk_refs_from_metadata : List Chunk → List ChunkRef
chunk_refs_from_metadata [] = []
chunk_refs_from_metadata (chunk ∷ chunks) =
    record {
      part = chunk.part_number;
      file_id = chunk.telegram_file_id;
      offset = chunk.offset;
      size = chunk.size;
    }
    ∷ chunk_refs_from_metadata chunks

module _ (bucket key : Text) where
  -- The two loops of buildMultipartObject are one over all chunks.
  abbrev pub lay_out : List MultipartChunk → ℤ → ℤ → List Chunk
  lay_out [] offset number = []
  lay_out (chunk ∷ chunks) offset number =
      chunk_at bucket key chunk offset number
      ∷ lay_out chunks (add64 offset chunk.size) (add64 number (pos 1))

  add_chunks-lay_out :
      (chunks others : List MultipartChunk) (offset number : ℤ) (next : ℤ → ℤ → List Chunk)
      → ((o n : ℤ) → next o n ≡ lay_out others o n)
      → add_chunks bucket key chunks offset number next ≡ lay_out (chunks ++ others) offset number
  unfolding add_chunks
  add_chunks-lay_out [] others offset number next h = h offset number
  add_chunks-lay_out (chunk ∷ chunks) others offset number next h =
      ap (λ l. chunk_at bucket key chunk offset number ∷ l)
        (add_chunks-lay_out chunks others (add64 offset chunk.size) (add64 number (pos 1)) next h)

  pub chunks_of_parts-lay_out :
      (parts : List MultipartPart) (offset number : ℤ)
      → chunks_of_parts bucket key parts offset number ≡ lay_out (all_chunks parts) offset number
  unfolding chunks_of_parts
  chunks_of_parts-lay_out [] offset number = refl
  chunks_of_parts-lay_out (part ∷ parts) offset number =
      add_chunks-lay_out part.chunks (all_chunks parts) offset number
        (chunks_of_parts bucket key parts) (chunks_of_parts-lay_out parts)

  Ascending-lay_out :
      (chunks : List MultipartChunk) (offset low : ℤ) (n : ℕ)
      → ltb_ℤ low (pos n) ≡ true
      → n + length chunks ≤ int64_max
      → Ascending bucket key low (lay_out chunks offset (pos n))
  Ascending-lay_out [] offset low n above h = tt
  Ascending-lay_out (chunk ∷ chunks) offset low n above h = (
    refl,
    refl,
    above,
    rw (add64_pos n 1 (omega arith)) (
        Ascending-lay_out chunks (add64 offset chunk.size) (pos n) (n + 1) (ground arith)
          (omega arith)),
  )

  pub Ascends-lay_out :
      (chunks : List MultipartChunk)
      → length chunks < int64_max
      → Ascends bucket key (lay_out chunks (pos 0) (pos 1))
  Ascends-lay_out [] h = tt
  Ascends-lay_out (chunk ∷ chunks) h =
      let (eb, ek, _, rest) =
        Ascending-lay_out (chunk ∷ chunks) (pos 0) (pos 0) 1 refl (omega arith) in
      (eb, ek, rest)

  module _ (content : Text → Text) where
    pub Contiguous-lay_out :
        (chunks : List MultipartChunk) (offset : ℕ) (number : ℤ)
        → Sized content chunks
        → offset + length (bytes_of content chunks) ≤ int64_max
        → Contiguous content offset (chunk_refs_from_metadata (lay_out chunks (pos offset) number))
    unfolding chunk_refs_from_metadata
    Contiguous-lay_out [] offset number sized h = tt
    Contiguous-lay_out (chunk ∷ chunks) offset number (size, sized) h =
        let t = content chunk.telegram_file_id in
        let total = length-append t (bytes_of content chunks) in
        (
          refl,
          size,
          rw (size, add64_pos offset (length t) (omega arith))
              (Contiguous-lay_out chunks (offset + length t) (add64 number (pos 1)) sized
                (omega arith)),
        )

    pub object_bytes-lay_out :
        (chunks : List MultipartChunk) (offset number : ℤ)
        → object_bytes content (chunk_refs_from_metadata (lay_out chunks offset number))
          ≡ bytes_of content chunks
    unfolding chunk_refs_from_metadata
    object_bytes-lay_out [] offset number = refl
    object_bytes-lay_out (chunk ∷ chunks) offset number =
        ap (λ t. content chunk.telegram_file_id ++ t)
          (object_bytes-lay_out chunks (add64 offset chunk.size) (add64 number (pos 1)))
