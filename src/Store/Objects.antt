-- ===== src/Store/Objects.antt =====
-- store/store.go: the object methods of ObjectStore, over the metadata store and Telegram.
-- The semaphores and the cancelling of a request are left out: an operation runs to its end.
pub mod Streams
pub mod Reads
pub mod Puts
pub mod Multiparts
mod Tests
use tg_files.Common.{
  Text, codes, Bool, true, false, not, ◌&&◌, List, [], ◌∷◌, ◌++◌, Option, none, some, if◌then◌else◌,
  text_eq, Result, ok, err, length, ◌==◌, map,
}
use tg_files.Golang.Int64.{ℤ, pos, ltb_ℤ}
use tg_files.Golang.Strings.{trim_right}
use tg_files.Metadata.Types.{Time, Object, Chunk}
use tg_files.Metadata.Statements.{eqb_ℤ}
use tg_files.Metadata.Sql.{DbError, not_found, Session}
use tg_files.Metadata.Objects
use tg_files.Metadata.Buckets
use tg_files.Store.Types.{
  Failure, store, meta, copied_size, missing_content_length, entity_too_large, no_such_key,
  no_such_bucket, not_implemented,
}
use tg_files.Store.Range.{ByteRange, ChunkRef, SelectedChunk, copy_all, select_chunks_for_range}
use tg_files.Store.UploadStrategy.{UploadConfig, UploadStrategy, resolve, type_limit}
use tg_files.Store.Multipart.{ObjectStore, UploadedFile, UploadRecord, head_bucket, bucket_chat_id}
use tg_files.Store.Multipart.Handlers.{hex_encode}
use tg_files.Store.Multipart.Layout.{chunk_refs_from_metadata}

-- path.Base: the text behind the last slash of a path whose slashes at the end are cut off.
unfoldable pub last_element : Text → Text → Text
last_element found [] = found
last_element found (c ∷ s) = last_element (if c == b'/' then [] else found ++ c ∷ []) s

unfoldable pub base : Text → Text
unfolding trim_right last_element
base [] = codes "."
base (c ∷ s) = elim (last_element [] (trim_right (λ c. c == b'/') (c ∷ s))) [
  | [] ↦ codes "/"
  | d ∷ t ↦ d ∷ t
]

-- Errors of the metadata store, where ErrNotFound is worded `absent`.
unfoldable pub store_error : Failure → DbError → Failure
store_error absent e = elim e [ not_found ↦ absent | e ↦ meta e ]

unfoldable pub head_object : Text → Text → ObjectStore → Result Failure Object × ObjectStore
unfolding head_bucket Objects.head_object store_error
head_object bucket key s = elim (head_bucket bucket s) [
  | err e ↦ (err e, s)
  | ok _ ↦
      let (r, session) = Objects.head_object bucket key s.session in
      let result : Result Failure Object = elim r [
        | err e ↦ err (store_error (store no_such_key) e)
        | ok object ↦ ok object
      ] in
      (result, record s { session = session })
]

-- The chunks that GetObject selects without a range.
unfoldable pub whole_chunks : List ChunkRef → List SelectedChunk
whole_chunks [] = []
whole_chunks (chunk ∷ chunks) =
    record { chunk = chunk; skip = pos 0; take = chunk.size } ∷ whole_chunks chunks

unfoldable pub selected_chunks : Option ByteRange → List Chunk → List SelectedChunk
unfolding whole_chunks select_chunks_for_range chunk_refs_from_metadata
selected_chunks none chunks = whole_chunks (chunk_refs_from_metadata chunks)
selected_chunks (some range) chunks =
    select_chunks_for_range (chunk_refs_from_metadata chunks) range

-- GetObject up to the goroutine: the object, and the chunks that the goroutine downloads and copies.
unfoldable pub get_object :
    Text
    → Text
    → Option ByteRange
    → ObjectStore
    → Result Failure (Object × List SelectedChunk) × ObjectStore
unfolding head_bucket Objects.get_object selected_chunks store_error
get_object bucket key range s = elim (head_bucket bucket s) [
  | err e ↦ (err e, s)
  | ok _ ↦
      let (r, session) = Objects.get_object bucket key s.session in
      let result : Result Failure (Object × List SelectedChunk) = elim r [
        | err e ↦ err (store_error (store no_such_key) e)
        | ok found ↦ ok (found.0, selected_chunks range found.1)
      ] in
      (result, record s { session = session })
]

-- GetObject with its goroutine: the object, and the bytes that a reader of the body gets, with the
-- content of every file at Telegram, when no download fails. Where one does, it is `stream_object`.
unfoldable pub read_object :
    (Text → Text)
    → Text
    → Text
    → Option ByteRange
    → ObjectStore
    → Result Failure (Object × Text) × ObjectStore
unfolding get_object copy_all
read_object content bucket key range s =
    let (r, s') = get_object bucket key range s in
    let result : Result Failure (Object × Text) = elim r [
      | err e ↦ err e
      | ok found ↦ ok (found.0, copy_all content found.1)
    ] in
    (result, s')

-- DeleteObject: a key that is not there is no error.
unfoldable pub delete_object : Text → Text → ObjectStore → Result Failure Unit × ObjectStore
unfolding head_bucket Objects.delete_object
delete_object bucket key s = elim (head_bucket bucket s) [
  | err e ↦ (err e, s)
  | ok _ ↦
      let (r, session) = Objects.delete_object bucket key s.session in
      let result : Result Failure Unit = elim r [
        | err e ↦ elim e [ not_found ↦ ok tt | e ↦ err (meta e) ]
        | ok _ ↦ ok tt
      ] in
      (result, record s { session = session })
]

-- PutObject, with the body as it can be read, what Telegram answers to it by the chat and the type
-- of the upload, and sixteen random bytes.
module _ (md5 sha256 : Text → Text) (config : UploadConfig)
    (upload : Text → Text → Text → Result Failure UploadedFile) (random : Text) where
  -- The end of both ways to put an object: what was uploaded for nothing is logged.
  abbrev pub finish :
      Result DbError Unit × Session
      → Text
      → List UploadRecord
      → ObjectStore
      → Result Failure Text × ObjectStore
  finish (err e, session) etag uploads s =
      (err (meta e), record s { session = session; orphans = s.orphans ++ uploads })
  finish (ok _, session) etag uploads s = (ok etag, record s { session = session })

  unfoldable pub put_empty :
      Text → Text → Text → UploadStrategy → Time → ObjectStore → Result Failure Text × ObjectStore
  unfolding Objects.put_object hex_encode
  put_empty bucket key content_type strategy now s =
      let etag = hex_encode (md5 []) in
      let object : Object = record {
        bucket = bucket;
        key = key;
        size = pos 0;
        content_type = content_type;
        etag = etag;
        sha256 = hex_encode (sha256 []);
        last_modified = now;
        chunk_count = pos 0;
        telegram_type = strategy.telegram_type;
        upload_strategy = strategy.upload_strategy;
      } in
      finish (Objects.put_object object [] s.session) etag [] s

  -- What putSingle stores of the answer: a typed upload may be compressed again, so its own size
  -- counts, if Telegram tells one.
  unfoldable pub recompressed : UploadStrategy → UploadedFile → Bool
  unfolding text_eq
  recompressed strategy file =
      text_eq strategy.upload_strategy (codes "typed") && ltb_ℤ (pos 0) file.file_size

  unfoldable pub single_object :
      Text → Text → Text → ℤ → Text → UploadStrategy → UploadedFile → Time → Object
  unfolding recompressed hex_encode
  single_object bucket key content_type size body strategy file now =
      let typed = recompressed strategy file in
      record {
        bucket = bucket;
        key = key;
        size = if typed then file.file_size else size;
        content_type = content_type;
        etag = if typed then hex_encode random ++ codes "-typed" else hex_encode (md5 body);
        sha256 = if typed then [] else hex_encode (sha256 body);
        last_modified = now;
        chunk_count = pos 1;
        telegram_type = file.type;
        upload_strategy = strategy.upload_strategy;
      }

  unfoldable pub single_chunk : Object → UploadedFile → Chunk
  single_chunk object file = record {
    bucket = object.bucket;
    key = object.key;
    part_number = pos 1;
    offset = pos 0;
    size = object.size;
    telegram_type = file.type;
    telegram_file_id = file.file_id;
    telegram_message_id = file.message_id;
    telegram_file_unique_id = file.file_unique_id;
    sha256 = object.sha256;
  }

  unfoldable pub put_single :
      Text
      → Text
      → Text
      → ℤ
      → Text
      → UploadStrategy
      → Time
      → ObjectStore
      → Result Failure Text × ObjectStore
  unfolding single_object single_chunk Objects.put_object eqb_ℤ bucket_chat_id
  put_single bucket key content_type size body strategy now s =
      if not (eqb_ℤ (pos (length body)) size)
      then (err copied_size, s)
      else elim (upload (bucket_chat_id bucket s) strategy.telegram_type body) [
        | err e ↦ (err e, s)
        | ok file ↦
            let object = single_object bucket key content_type size body strategy file now in
            let uploads : List UploadRecord =
              record { file_id = file.file_id; message_id = file.message_id } ∷ [] in
            finish (Objects.put_object object (single_chunk object file ∷ []) s.session) object.etag
              uploads s
      ]

  unfoldable pub put_object :
      Text → Text → Text → ℤ → Text → Time → ObjectStore → Result Failure Text × ObjectStore
  unfolding head_bucket base resolve put_empty put_single type_limit eqb_ℤ
  put_object bucket key content_type size body now s =
      if ltb_ℤ size (pos 0)
      then (err (store missing_content_length), s)
      else elim (head_bucket bucket s) [
        | err e ↦ (err e, s)
        | ok _ ↦ elim (resolve config (base key) content_type size) [
          | err e ↦ (err (store e), s)
          | ok strategy ↦
              let limit = type_limit config.type_limits strategy.telegram_type in
              if eqb_ℤ size (pos 0)
              then put_empty bucket key content_type strategy now s
              else if ltb_ℤ (pos 0) limit && ltb_ℤ limit size
              then (err (store entity_too_large), s)
              else put_single bucket key content_type size body strategy now s
        ]
      ]
