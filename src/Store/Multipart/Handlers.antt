-- ===== src/Store/Multipart/Handlers.antt =====
-- store/store.go: UploadPart, which sends a part to Telegram between its two critical sections, and
-- CompleteMultipartUpload.
use tg_files.Common.{
  ◌==◌, ℕ, ◌+◌, ◌/◌, ◌%◌, Text, codes, ◌&&◌, ◌||◌, List, [], ◌∷◌, ◌++◌, none, some, if◌then◌else◌,
  text_eq, Result, ok, err, length, ltb, ◌-◌,
}
use tg_files.Golang.Int64.{ℤ, pos, ltb_ℤ, add64}
use tg_files.Golang.Strconv.{itoa}
use tg_files.Metadata.Types.{Time, Object, Chunk}
use tg_files.Metadata.Table.{upsert, without}
use tg_files.Metadata.Statements.{eqb_ℤ}
use tg_files.Metadata.Objects
use tg_files.Metadata.Sql.{DbError, Session}
use tg_files.Store.Types.{
  end_of_file, unexpected_end_of_file, Failure, store, meta, copied_size, entity_too_large,
  invalid_argument,
}
use tg_files.Store.UploadStrategy.{UploadConfig, type_limit, document}
use tg_files.Store.Multipart.{
  MultipartChunk, MultipartPart, CompletedPart, UploadedFile, UploadRecord, ObjectStore, find_part,
  part_number, upload_id, chunk_records, open_upload, complete_parts, bucket_chat_id,
}

-- hex.EncodeToString
unfoldable pub hex_digit : ℕ → ℕ
hex_digit n = if ltb n 10 then b'0' + n else b'a' + n - 10

unfoldable pub hex_encode : Text → Text
unfolding hex_digit
hex_encode [] = []
hex_encode (c ∷ s) = hex_digit (c / 16) ∷ hex_digit (c % 16) ∷ hex_encode s

unfoldable pub md5_input : List MultipartPart → Text
md5_input [] = []
md5_input (part ∷ parts) = part.md5_bytes ++ md5_input parts

-- The sum of the sizes, from `size` on, as an int64.
unfoldable pub total_size : ℤ → List MultipartPart → ℤ
unfolding add64
total_size size [] = size
total_size size (part ∷ parts) = total_size (add64 size part.size) parts

abbrev pub chunk_at : Text → Text → MultipartChunk → ℤ → ℤ → Chunk
chunk_at bucket key chunk offset number = record {
  bucket = bucket;
  key = key;
  part_number = number;
  offset = offset;
  size = chunk.size;
  telegram_type = chunk.telegram_type;
  telegram_file_id = chunk.telegram_file_id;
  telegram_message_id = chunk.telegram_message_id;
  telegram_file_unique_id = chunk.telegram_file_unique_id;
  sha256 = chunk.sha256;
}

-- The inner loop of buildMultipartObject; `next` goes on with the offset and the part number.
unfoldable pub add_chunks :
    Text → Text → List MultipartChunk → ℤ → ℤ → (ℤ → ℤ → List Chunk) → List Chunk
unfolding add64
add_chunks bucket key [] offset number next = next offset number
add_chunks bucket key (chunk ∷ chunks) offset number next =
    chunk_at bucket key chunk offset number
    ∷ add_chunks bucket key chunks (add64 offset chunk.size) (add64 number (pos 1)) next

-- The outer loop.
unfoldable pub chunks_of_parts : Text → Text → List MultipartPart → ℤ → ℤ → List Chunk
unfolding add_chunks
chunks_of_parts bucket key [] offset number = []
chunks_of_parts bucket key (part ∷ parts) offset number =
    add_chunks bucket key part.chunks offset number (chunks_of_parts bucket key parts)

module _ (md5 : Text → Text) where
  unfoldable pub multipart_etag : List MultipartPart → Text
  unfolding hex_encode md5_input itoa
  multipart_etag parts = hex_encode (md5 (md5_input parts)) ++ codes "-" ++ itoa (length parts)

  -- The third result of the code is the object's `etag`.
  unfoldable pub build_multipart_object :
      Text → Text → Text → List MultipartPart → Time → Object × List Chunk
  unfolding multipart_etag total_size chunks_of_parts
  build_multipart_object bucket key content_type parts now =
      let chunks = chunks_of_parts bucket key parts (pos 0) (pos 1) in
      (
        record {
          bucket = bucket;
          key = key;
          size = total_size (pos 0) parts;
          content_type = content_type;
          etag = multipart_etag parts;
          sha256 = [];
          last_modified = now;
          chunk_count = pos (length chunks);
          telegram_type = document;
          upload_strategy = codes "multipart";
        },
        chunks,
      )

  -- The end of CompleteMultipartUpload, behind PutObject.
  abbrev pub close_upload :
      Text → Text → ObjectStore → Result DbError Unit × Session → Result Failure Text × ObjectStore
  close_upload id etag s (err e, session) = (err (meta e), record s { session = session })
  close_upload id etag s (ok _, session) = (
    ok etag,
    record s {
      session = session;
      multipart_uploads = without upload_id text_eq id s.multipart_uploads;
    },
  )

  -- (*ObjectStore).CompleteMultipartUpload
  unfoldable pub complete_multipart_upload :
      Text
      → Text
      → Text
      → List CompletedPart
      → Time
      → ObjectStore
      → Result Failure Text × ObjectStore
  unfolding open_upload complete_parts build_multipart_object Objects.put_object
  complete_multipart_upload id bucket key [] now s = (err (store invalid_argument), s)
  complete_multipart_upload id bucket key (first ∷ rest) now s =
      if text_eq id []
      then (err (store invalid_argument), s)
      else elim (open_upload id bucket key s) [
        | err e ↦ (err e, s)
        | ok upload ↦ elim (complete_parts (pos 0) upload.parts (first ∷ rest)) [
          | err e ↦ (err (store e), s)
          | ok parts ↦
              let (object, chunks) =
                build_multipart_object bucket key upload.content_type parts now in
              close_upload id object.etag s (Objects.put_object object chunks s.session)
        ]
      ]

  -- The part that uploadMultipartPartChunks makes of Telegram's answer.
  unfoldable pub sent_part : (Text → Text) → ℤ → ℤ → Text → UploadedFile → MultipartPart
  unfolding hex_encode
  sent_part sha256 number size body file = record {
    number = number;
    etag = hex_encode (md5 body);
    md5_bytes = md5 body;
    size = size;
    chunks =
        record {
          size = size;
          telegram_type = file.type;
          telegram_file_id = file.file_id;
          telegram_message_id = file.message_id;
          telegram_file_unique_id = file.file_unique_id;
          sha256 = hex_encode (sha256 body);
        }
        ∷ [];
  }

  -- uploadMultipartPartChunks, with the body as it can be read and what Telegram answers to it.
  unfoldable pub upload_multipart_part_chunks :
      UploadConfig
      → ℤ
      → ℤ
      → Text
      → (Text → Text)
      → (Text → Result Failure UploadedFile)
      → Result Failure MultipartPart
  unfolding sent_part type_limit eqb_ℤ
  upload_multipart_part_chunks config number size body sha256 upload =
      let limit = type_limit config.type_limits document in
      if ltb_ℤ (pos 0) limit && ltb_ℤ limit size
      then err (store entity_too_large)
      else if ltb_ℤ (pos (length body)) size
      then err (if length body == 0 then end_of_file else unexpected_end_of_file)
      else if ltb_ℤ size (pos (length body))
      then err copied_size
      else elim (upload body) [
        | err e ↦ err e
        | ok file ↦ ok (sent_part sha256 number size body file)
      ]

-- The second critical section of UploadPart.
unfoldable pub store_part :
    Text → Text → Text → MultipartPart → ObjectStore → Result Failure Text × ObjectStore
unfolding open_upload find_part chunk_records
store_part id bucket key part s = elim (open_upload id bucket key s) [
  | err e ↦ (err e, s)
  | ok upload ↦
      let replaced : List UploadRecord = elim (find_part part.number upload.parts) [
        | none ↦ []
        | some old ↦ chunk_records old.chunks
      ] in
      let parts = upsert part_number eqb_ℤ part upload.parts in
      (
        ok part.etag,
        record s {
          multipart_uploads =
              upsert upload_id text_eq (record upload { parts = parts }) s.multipart_uploads;
          orphans = s.orphans ++ replaced;
        },
      )
]

-- (*ObjectStore).UploadPart. `meanwhile` is what the other requests do to the store while Telegram
-- receives the part.
unfoldable pub upload_part :
    (md5 sha256 : Text → Text)
    → UploadConfig
    → (Text → Text → Result Failure UploadedFile)
    → (ObjectStore → ObjectStore)
    → Text
    → Text
    → Text
    → ℤ
    → ℤ
    → Text
    → ObjectStore
    → Result Failure Text × ObjectStore
unfolding open_upload upload_multipart_part_chunks store_part bucket_chat_id
upload_part md5 sha256 config upload meanwhile id bucket key number size body s =
    if ltb_ℤ number (pos 1) || text_eq id [] || ltb_ℤ size (pos 0)
    then (err (store invalid_argument), s)
    else elim (open_upload id bucket key s) [
      | err e ↦ (err e, s)
      | ok _ ↦
          let part =
            upload_multipart_part_chunks md5 config number size body sha256
              (upload (bucket_chat_id bucket s)) in
          elim part [
            | err e ↦ (err e, meanwhile s)
            | ok part ↦ store_part id bucket key part (meanwhile s)
          ]
    ]
