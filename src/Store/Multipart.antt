-- ===== src/Store/Multipart.antt =====
-- store/store.go: multipart uploads, kept in memory until they are completed.
-- MD5, the random source, the clock and Telegram are parameters. A map is an association list; the
-- order of the list stands for the order in which Go happens to iterate.
pub mod Handlers
pub mod Parts
pub mod Layout
pub mod Sessions
pub mod Failing
use tg_files.Common.{
  map, ℕ, suc, Text, codes, Bool, true, false, not, ◌&&◌, ◌||◌, List, [], ◌∷◌, ◌++◌, Option, none,
  some, if◌then◌else◌, text_eq, Result, ok, err, length, ◌==◌, ltb,
}
use tg_files.Golang.Int64.{ℤ, pos, ltb_ℤ, leb_ℤ, add64}
use tg_files.Golang.Strings.{trim}
use tg_files.Golang.Strconv.{itoa}
use tg_files.Metadata.Types.{Time, Object, Chunk, Bucket}
use tg_files.Metadata.Table.{find, upsert, without}
use tg_files.Metadata.Statements.{eqb_ℤ}
use tg_files.Metadata.Sql.{Session}
use tg_files.Metadata.Objects
use tg_files.Store.Types.{
  StoreError, Failure, store, meta, copied_size, entity_too_large, invalid_argument, no_such_bucket,
  no_such_upload, invalid_part, invalid_part_order,
}
use tg_files.Store.UploadStrategy.{UploadConfig, type_limit, document, one_of}

pub record MultipartChunk : Type 0 where
  pub size : ℤ
  pub telegram_type : Text
  pub telegram_file_id : Text
  pub telegram_message_id : ℤ
  pub telegram_file_unique_id : Text
  pub sha256 : Text

pub record MultipartPart : Type 0 where
  pub number : ℤ
  pub etag : Text
  pub md5_bytes : Text
  pub size : ℤ
  pub chunks : List MultipartChunk

-- The entry of the map holds its id; a part is the entry of `parts` at its number.
pub record MultipartUpload : Type 0 where
  pub id : Text
  pub bucket : Text
  pub key : Text
  pub content_type : Text
  pub created_at : Time
  pub parts : List MultipartPart

pub record CompletedPart : Type 0 where
  pub part_number : ℤ
  pub etag : Text

pub record UploadRecord : Type 0 where
  pub file_id : Text
  pub message_id : ℤ

-- telegram.UploadedFile, as far as the store reads it.
pub record UploadedFile : Type 0 where
  pub type : Text
  pub file_id : Text
  pub message_id : ℤ
  pub file_unique_id : Text
  pub file_size : ℤ

-- The fields of ObjectStore that multipart uploads use, and the files that the log names as orphans.
pub record ObjectStore : Type 0 where
  pub session : Session
  pub startup_buckets : List Bucket
  pub multipart_uploads : List MultipartUpload
  pub orphans : List UploadRecord

abbrev pub startup_names : ObjectStore → List Text
startup_names s = map {A = Bucket} (λ bucket. bucket.name) s.startup_buckets

-- bucketChatID
unfoldable pub bucket_chat_id : Text → ObjectStore → Text
unfolding find text_eq
bucket_chat_id name s =
    elim (find {A = Bucket} (λ bucket. bucket.name) text_eq name s.startup_buckets) [
      | none ↦ []
      | some bucket ↦ bucket.chat_id
    ]

abbrev pub upload_id : MultipartUpload → Text
upload_id upload = upload.id

abbrev pub part_number : MultipartPart → ℤ
part_number part = part.number

unfoldable pub find_upload : Text → List MultipartUpload → Option MultipartUpload
unfolding find text_eq
find_upload = find upload_id text_eq

unfoldable pub find_part : ℤ → List MultipartPart → Option MultipartPart
unfolding find eqb_ℤ
find_part = find part_number eqb_ℤ

abbrev pub max_multipart_uploads : ℕ
max_multipart_uploads = 1000

-- HeadBucket
unfoldable pub head_bucket : Text → ObjectStore → Result Failure Unit
unfolding one_of
head_bucket name s = if one_of name (startup_names s) then ok tt else err (store no_such_bucket)

-- (time.Time).Before
unfoldable pub before : Time → Time → Bool
before t u = ltb_ℤ t.seconds u.seconds || (eqb_ℤ t.seconds u.seconds && ltb t.nanos u.nanos)

-- The loop of evictOldestMultipartUploadLocked, with the candidate so far.
unfoldable pub oldest_of : MultipartUpload → List MultipartUpload → MultipartUpload
unfolding before
oldest_of oldest [] = oldest
oldest_of oldest (upload ∷ uploads) =
    oldest_of (if before upload.created_at oldest.created_at then upload else oldest) uploads

unfoldable pub chunk_records : List MultipartChunk → List UploadRecord
chunk_records [] = []
chunk_records (chunk ∷ chunks) =
    record { file_id = chunk.telegram_file_id; message_id = chunk.telegram_message_id }
    ∷ chunk_records chunks

unfoldable pub part_records : List MultipartPart → List UploadRecord
unfolding chunk_records
part_records [] = []
part_records (part ∷ parts) = chunk_records part.chunks ++ part_records parts

-- logMultipartOrphansLocked and `delete`
unfoldable pub drop_upload : MultipartUpload → ObjectStore → ObjectStore
unfolding part_records without
drop_upload upload s = record s {
  multipart_uploads = without upload_id text_eq upload.id s.multipart_uploads;
  orphans = s.orphans ++ part_records upload.parts;
}

unfoldable pub evict_oldest_multipart_upload : ObjectStore → ObjectStore
unfolding oldest_of drop_upload
evict_oldest_multipart_upload s = elim s.multipart_uploads [
  | [] ↦ s
  | upload ∷ uploads ↦
      if ltb max_multipart_uploads (suc (length uploads))
      then drop_upload (oldest_of upload uploads) s
      else s
]

-- The id is the one that newUploadID draws; `none` when the random source fails.
unfoldable pub create_multipart_upload :
    Text → Text → Text → Option Text → Time → ObjectStore → Result Failure Text × ObjectStore
unfolding head_bucket evict_oldest_multipart_upload
create_multipart_upload bucket key content_type id now s = elim (head_bucket bucket s) [
  | err e ↦ (err e, s)
  | ok _ ↦ elim id [
    | none ↦ (err Failure.random, s)
    | some id ↦
        let upload : MultipartUpload = record {
          id = id;
          bucket = bucket;
          key = key;
          content_type = content_type;
          created_at = now;
          parts = [];
        } in
        (
          ok id,
          evict_oldest_multipart_upload (record s {
            multipart_uploads = upsert upload_id text_eq upload s.multipart_uploads;
          }),
        )
  ]
]

-- The test `upload == nil || upload.bucket != bucket || upload.key != key` of the handlers.
unfoldable pub open_upload : Text → Text → Text → ObjectStore → Result Failure MultipartUpload
unfolding find_upload
open_upload id bucket key s = elim (find_upload id s.multipart_uploads) [
  | none ↦ err (store no_such_upload)
  | some upload ↦
      if not (text_eq upload.bucket bucket) || not (text_eq upload.key key)
      then err (store no_such_upload)
      else ok upload
]

unfoldable pub abort_multipart_upload :
    Text → Text → Text → ObjectStore → Result Failure Unit × ObjectStore
unfolding open_upload drop_upload
abort_multipart_upload id bucket key s =
    if text_eq id []
    then (err (store invalid_argument), s)
    else elim (open_upload id bucket key s) [
      | err e ↦ (err e, s)
      | ok upload ↦ (ok tt, drop_upload upload s)
    ]

-- etagMatches
unfoldable pub etag_matches : Text → Text → Bool
unfolding trim
etag_matches stored submitted =
    text_eq (trim (λ c. c == b'"') submitted) (trim (λ c. c == b'"') stored)

-- (*multipartUpload).completeParts, from a part on, with `lastPart`.
unfoldable pub complete_parts :
    ℤ → List MultipartPart → List CompletedPart → Result StoreError (List MultipartPart)
unfolding find_part etag_matches
complete_parts last_part parts [] = ok []
complete_parts last_part parts (requested ∷ rest) =
    let others = complete_parts requested.part_number parts rest in
    if leb_ℤ requested.part_number last_part
    then err invalid_part_order
    else elim (find_part requested.part_number parts) [
      | none ↦ err invalid_part
      | some part ↦
          if not (etag_matches part.etag requested.etag)
          then err invalid_part
          else elim others [ err e ↦ err e | ok found ↦ ok (part ∷ found) ]
    ]
