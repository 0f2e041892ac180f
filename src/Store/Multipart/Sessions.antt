-- ===== src/Store/Multipart/Sessions.antt =====
-- The steps that the handlers of multipart uploads take on the store, in any interleaving, and what
-- they keep. UploadPart takes one step when Telegram has the part, and CompleteMultipartUpload two:
-- it writes the object, and it deletes the session. Their first critical sections only read. What
-- others do meanwhile are steps of their own.
pub mod Kept
pub mod Stepping
pub mod Reachable
use tg_files.Common.{
  ℕ, ◌≤◌, Text, Bool, true, false, List, [], ◌∷◌, some, none, Option, ◌≡◌, ok, Result, text_eq, All,
  length,
}
use tg_files.Golang.Int64.{ℤ, pos}
use tg_files.Metadata.Types.{Time, Object, Chunk}
use tg_files.Metadata.Objects
use tg_files.Metadata.Table.{Unique, without}
use tg_files.Store.Types.{Failure}
use tg_files.Store.UploadStrategy.{UploadConfig}
use tg_files.Store.Multipart.{
  ObjectStore, MultipartUpload, MultipartPart, CompletedPart, UploadedFile, upload_id,
  max_multipart_uploads, create_multipart_upload, abort_multipart_upload, bucket_chat_id,
}
use tg_files.Store.Multipart.Handlers.{
  complete_multipart_upload, upload_multipart_part_chunks, store_part,
}
use tg_files.Store.Multipart.Layout.{Sized}

module _ (md5 sha256 : Text → Text) (config : UploadConfig)
    (upload : Text → Text → Result Failure UploadedFile) where
  pub data Step : ObjectStore → ObjectStore → Type 0 where
    creates :
        (s : ObjectStore) (bucket key content_type : Text) (id : Option Text) (now : Time)
        → Step s (create_multipart_upload bucket key content_type id now s).1
    stores :
        (s : ObjectStore) (id bucket key body : Text) (number size : ℤ) (part : MultipartPart)
        → upload_multipart_part_chunks md5 config number size body sha256
            (upload (bucket_chat_id bucket s))
          ≡ ok part
        → Step s (store_part id bucket key part s).1
    -- PutObject of CompleteMultipartUpload, or of another request, with whatever it writes
    writes :
        (s : ObjectStore) (object : Object) (chunks : List Chunk)
        → Step s (record s { session = (Objects.put_object object chunks s.session).1 })
    -- the second critical section of CompleteMultipartUpload
    closes :
        (s : ObjectStore) (id : Text)
        → Step s (record s { multipart_uploads = without upload_id text_eq id s.multipart_uploads })
    aborts :
        (s : ObjectStore) (id bucket key : Text) → Step s (abort_multipart_upload id bucket key s).1

  -- Any number of steps.
  pub data Steps : ObjectStore → ObjectStore → Type 0 where
    rests : (s : ObjectStore) → Steps s s
    goes : {s t u : ObjectStore} → Step s t → Steps t u → Steps s u

-- Every stored chunk is as long as its file at Telegram.
abbrev pub IsSizedPart : (Text → Text) → MultipartPart → Type 0
IsSizedPart content part = Sized content part.chunks

abbrev pub IsSizedUpload : (Text → Text) → MultipartUpload → Type 0
IsSizedUpload content upload = All (IsSizedPart content) upload.parts

-- No more sessions than the limit, no id twice, and every chunk as long as its file.
pub record IsTidy (content : Text → Text) (s : ObjectStore) : Type 0 where
  pub bounded : length s.multipart_uploads ≤ max_multipart_uploads
  pub unique : Unique upload_id text_eq s.multipart_uploads
  pub sized : All (IsSizedUpload content) s.multipart_uploads
