-- ===== src/Store/Tests.antt =====
-- The object store at concrete inputs: MD5 and SHA-256 are stood for by the identity, and a file's
-- id at Telegram is its content.
use tg_files.Common.{
  ℕ, Text, codes, ◌≡◌, refl, ok, err, [], ◌∷◌, List, arith, true, false, some, text_eq, Result, ◌↔◌,
  sym, ap, ok_injective,
}
use tg_files.Golang.Int64.{pos, ltb_ℤ}
use tg_files.Golang.Strings.{trim}
use tg_files.Metadata.Types.{Db, Time, Bucket}
use tg_files.Metadata.Sql.{calm, engine}
use tg_files.Metadata.Table.{has_key}
use tg_files.Metadata.Objects.RoundTrip.{to_seconds}
use tg_files.Store.Types.{Failure, meta}
use tg_files.Store.UploadStrategy.{UploadConfig, resolve, document, type_limit, one_of}
use tg_files.Store.Multipart.Failing.{
  IsLeft, Holds, IsShown, upload_part-IsShown, complete_multipart_upload-IsLeft,
}
use tg_files.Metadata.Sql.{transaction, ◌>>=◌}
use tg_files.Store.Types.{unexpected_end_of_file}
use tg_files.Store.Multipart.{
  abort_multipart_upload, ObjectStore, UploadedFile, MultipartUpload, MultipartPart, CompletedPart,
  complete_parts, open_upload, find_part, find_upload, etag_matches,
}
use tg_files.Store.Multipart.Handlers.{
  hex_encode, complete_multipart_upload, multipart_etag, upload_part,
}
use tg_files.Store.Multipart.Parts.{complete_parts_iff, Completes}
use tg_files.Store.Multipart.Sessions.{IsTidy, goes, rests, aborts}
use tg_files.Store.Multipart.Sessions.Reachable.{Steps-IsTidy}
use tg_files.Store.Objects.{put_object, read_object, base, last_element}
use tg_files.Store.Objects.Puts.{read_object-put_object, document_object}
use tg_files.Store.Objects.Multiparts.{read_object-complete_multipart_upload, multipart_object}

abbrev startup_bucket : Text → Bucket
startup_bucket name = record {
  name = name;
  chat_id = codes "1";
  created_at = record { seconds = pos 5; nanos = 0 };
  enabled = true;
}

abbrev same : Text → Text
same s = s

abbrev plain : UploadConfig
plain = record {
  strategy = document;
  max_file_size = pos 100;
  type_limits = (document, pos 20) ∷ [];
  put_buffer_size = pos 0;
}

abbrev file_of : Text → UploadedFile
file_of body = record {
  type = document;
  file_id = body;
  message_id = pos 1;
  file_unique_id = codes "q";
  file_size = pos 0;
}

abbrev send_plain : Text → Text → Result Failure UploadedFile
send_plain chat body = ok (file_of body)

abbrev send : Text → Text → Text → Result Failure UploadedFile
send chat telegram_type body = ok (file_of body)

abbrev morning : Time
morning = record { seconds = pos 30000; nanos = 7 }

abbrev nothing_yet : Db
nothing_yet = record { buckets = []; objects = []; object_chunks = []; direct_links = [] }

abbrev photos : Text
photos = codes "photos"

abbrev part_of : ℕ → Text → MultipartPart
part_of n body = record {
  number = pos n;
  etag = codes "e";
  md5_bytes = body;
  size = pos 3;
  chunks =
      record {
        size = pos 3;
        telegram_type = document;
        telegram_file_id = body;
        telegram_message_id = pos n;
        telegram_file_unique_id = body;
        sha256 = [];
      }
      ∷ [];
}

abbrev two_parts : MultipartUpload
two_parts = record {
  id = codes "u";
  bucket = photos;
  key = codes "sea";
  content_type = codes "image/png";
  created_at = morning;
  parts = part_of 2 (codes "def") ∷ part_of 1 (codes "abc") ∷ [];
}

abbrev one_session : ObjectStore
one_session = record {
  session = calm nothing_yet;
  startup_buckets = startup_bucket (photos) ∷ [];
  multipart_uploads = two_parts ∷ [];
  orphans = [];
}

abbrev first_part : CompletedPart
first_part = record { part_number = pos 1; etag = codes "\"e\"" }

abbrev second_part : CompletedPart
second_part = record { part_number = pos 2; etag = codes "e" }

abbrev in_order : List MultipartPart
in_order = part_of 1 (codes "abc") ∷ part_of 2 (codes "def") ∷ []

accepted : complete_parts (pos 0) two_parts.parts (first_part ∷ second_part ∷ []) ≡ ok in_order
unfolding complete_parts find_part etag_matches trim text_eq
accepted = refl

complete_parts_iff_example :
    (complete_parts (pos 0) two_parts.parts (first_part ∷ second_part ∷ []) ≡ ok in_order)
    ↔ Completes two_parts.parts (pos 0) (first_part ∷ second_part ∷ []) in_order
complete_parts_iff_example =
    complete_parts_iff two_parts.parts (pos 0) (first_part ∷ second_part ∷ []) in_order

one_session-IsTidy : IsTidy same one_session
unfolding has_key
one_session-IsTidy = record {
  bounded = omega arith;
  unique = (refl, tt);
  sized = (((refl, tt), ((refl, tt), tt)), tt);
}

kept_whole :
    (chat b : Text) (file : UploadedFile) → send_plain chat b ≡ ok file → same file.file_id ≡ b
kept_whole chat b file e = sym (ap (λ f. f.file_id) (ok_injective e))

Steps-IsTidy_example :
    IsTidy same (abort_multipart_upload (codes "u") photos (codes "sea") one_session).1
Steps-IsTidy_example =
    Steps-IsTidy same same plain send_plain same kept_whole one_session _
      (goes (aborts one_session (codes "u") photos (codes "sea")) (rests _)) one_session-IsTidy

abbrev idle : ObjectStore → ObjectStore
idle s = s

-- The bytes of a part are fewer than the request says.
short_part :
    (upload_part same same plain send_plain idle
      (codes "u")
      photos
      (codes "sea")
      (pos 3)
      (pos 2)
      (codes "x")
      one_session).0
    ≡ err unexpected_end_of_file
unfolding upload_part text_eq
short_part = refl

upload_part-IsShown_example :
    (ltb_ℤ (pos 3) (pos 1) ≡ false)
    × (hex_encode (codes "xy") ≡ hex_encode (codes "xy"))
    × (part : MultipartPart) × Holds same (pos 3) (pos 2) (codes "xy") part
    × IsShown
        (codes "u")
        photos
        (codes "sea")
        part
        one_session
        (pos 3)
        (hex_encode (codes "xy"))
        (upload_part same same plain send_plain idle
          (codes "u")
          photos
          (codes "sea")
          (pos 3)
          (pos 2)
          (codes "xy")
          one_session).1
upload_part-IsShown_example =
    upload_part-IsShown same same plain send_plain idle (codes "u") photos (codes "sea")
      (codes "xy") (hex_encode (codes "xy")) (pos 3) (pos 2) (pos 3) one_session
      (unfold upload_part text_eq in refl)

-- A session whose engine refuses the third statement of PutObject.
abbrev refusing_session : ObjectStore
refusing_session = record one_session {
  session = record { db = one_session.session.db; faults = false ∷ false ∷ true ∷ [] };
}

complete_multipart_upload-IsLeft_example :
    IsLeft refusing_session
      (complete_multipart_upload same
        (codes "u")
        photos
        (codes "sea")
        (first_part ∷ second_part ∷ [])
        morning
        refusing_session).1
unfolding transaction ◌>>=◌
complete_multipart_upload-IsLeft_example =
    complete_multipart_upload-IsLeft same refusing_session (codes "u") photos (codes "sea")
      (first_part ∷ second_part ∷ []) morning (meta engine)
      (unfold complete_multipart_upload text_eq in refl)

read_object-put_object_example :
    ((put_object same same plain send [] photos
        (codes "sky")
        []
        (pos 4)
        (codes "blue")
        morning
        one_session).0
      ≡ ok (hex_encode (codes "blue")))
    × ((read_object same photos
          (codes "sky")
          (some (record { start = pos 1; end = pos 2 }))
          (put_object same same plain send [] photos
            (codes "sky")
            []
            (pos 4)
            (codes "blue")
            morning
            one_session).1).0
        ≡ ok (
          to_seconds (
              document_object same same plain send [] photos
                (codes "sky")
                []
                (codes "blue")
                (file_of (codes "blue"))
                morning),
          codes "lu",
        ))
unfolding one_of text_eq resolve base last_element type_limit
read_object-put_object_example =
    read_object-put_object same same plain send [] same photos (codes "sky") [] (codes "blue")
      morning nothing_yet (file_of (codes "blue")) one_session 1 2 refl refl refl refl refl refl
      (omega arith) (omega arith) (omega arith)

read_object-complete_multipart_upload_example :
    ((complete_multipart_upload same
        (codes "u")
        photos
        (codes "sea")
        (first_part ∷ second_part ∷ [])
        morning
        one_session).0
      ≡ ok (multipart_etag same in_order))
    × ((read_object same photos
          (codes "sea")
          (some (record { start = pos 2; end = pos 4 }))
          (complete_multipart_upload same
            (codes "u")
            photos
            (codes "sea")
            (first_part ∷ second_part ∷ [])
            morning
            one_session).1).0
        ≡ ok (
          to_seconds (
              multipart_object same
                (codes "u")
                photos
                (codes "sea")
                first_part
                (second_part ∷ [])
                morning
                nothing_yet
                one_session
                two_parts
                in_order),
          codes "cde",
        ))
unfolding one_of text_eq open_upload find_upload
read_object-complete_multipart_upload_example =
    read_object-complete_multipart_upload same (codes "u") photos (codes "sea") first_part
      (second_part ∷ []) morning nothing_yet one_session two_parts in_order same 2 4 refl refl refl
      accepted refl one_session-IsTidy (omega arith) (omega arith) (omega arith) (omega arith)
