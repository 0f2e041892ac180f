-- ===== src/Store/Multipart/Sessions/Reachable.antt =====
-- What holds of the sessions however the requests interleave.
use tg_files.Common.{Text, ◌≡◌, ok, Result, List, [], ◌∷◌, All, ◌++◌}
use tg_files.Store.Types.{Failure}
use tg_files.Store.UploadStrategy.{UploadConfig}
use tg_files.Store.Multipart.{
  ObjectStore, bucket_chat_id, MultipartPart, MultipartChunk, UploadedFile,
}
use tg_files.Store.Multipart.Layout.{Sized, all_chunks}
use tg_files.Store.Multipart.Sessions.{
  Step, Steps, IsTidy, IsSizedPart, creates, stores, writes, closes, aborts, rests, goes,
}
use tg_files.Store.Multipart.Sessions.Stepping.{
  create_multipart_upload-IsTidy, abort_multipart_upload-IsTidy, without-IsTidy, store_part-IsTidy,
  upload_multipart_part_chunks-IsSizedPart,
}

module _ (md5 sha256 : Text → Text) (config : UploadConfig)
    (send : Text → Text → Result Failure UploadedFile) where
  Step-IsTidy :
      (content : Text → Text)
      → ((chat b : Text) (file : UploadedFile) → send chat b ≡ ok file → content file.file_id ≡ b)
      → (s t : ObjectStore) → Step md5 sha256 config send s t
      → IsTidy content s
      → IsTidy content t
  Step-IsTidy content kept s _ (creates _ bucket key content_type id now) tidy =
      create_multipart_upload-IsTidy content s bucket key content_type id now tidy
  Step-IsTidy content kept s _ (stores _ id bucket key body number size part made) tidy =
      store_part-IsTidy content s id bucket key part
        (upload_multipart_part_chunks-IsSizedPart content md5 sha256 config
          (send (bucket_chat_id bucket s)) number size body part (kept (bucket_chat_id bucket s))
          made)
        tidy
  Step-IsTidy content kept s _ (writes _ object chunks) tidy = record {
    bounded = tidy.bounded;
    unique = tidy.unique;
    sized = tidy.sized;
  }
  Step-IsTidy content kept s _ (closes _ id) tidy = without-IsTidy content s id tidy
  Step-IsTidy content kept s _ (aborts _ id bucket key) tidy =
      abort_multipart_upload-IsTidy content s id bucket key tidy

  -- Where Telegram gives back whole what it takes, the steps of CreateMultipartUpload, UploadPart,
  -- CompleteMultipartUpload and AbortMultipartUpload in any order keep the sessions tidy: at most
  -- 1000, no two with one id, and every chunk of every part as long as its file.
  pub Steps-IsTidy :
      (content : Text → Text)
      → ((chat b : Text) (file : UploadedFile) → send chat b ≡ ok file → content file.file_id ≡ b)
      → (s t : ObjectStore) → Steps md5 sha256 config send s t
      → IsTidy content s
      → IsTidy content t
  Steps-IsTidy content kept s _ (rests _) tidy = tidy
  Steps-IsTidy content kept s _ (goes {t = t} step steps) tidy =
      Steps-IsTidy content kept t _ steps (Step-IsTidy content kept s t step tidy)

module _ (content : Text → Text) where
  Sized-append :
      (chunks others : List MultipartChunk)
      → Sized content chunks
      → Sized content others
      → Sized content (chunks ++ others)
  Sized-append [] others h k = k
  Sized-append (chunk ∷ chunks) others (size, h) k = (size, Sized-append chunks others h k)

  pub all_chunks-Sized :
      (parts : List MultipartPart)
      → All (IsSizedPart content) parts
      → Sized content (all_chunks parts)
  all_chunks-Sized [] h = tt
  all_chunks-Sized (part ∷ parts) (sized, h) =
      Sized-append part.chunks (all_chunks parts) sized (all_chunks-Sized parts h)
