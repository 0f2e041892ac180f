-- ===== src/Store/Multipart/Failing.antt =====
-- store/store.go: what CompleteMultipartUpload leaves when it fails, and what UploadPart keeps of a
-- part when it returns.
use tg_files.Common.{
  none, some, ◌++◌, if◌then◌else◌, Text, ◌≡◌, refl, ok, err, Result, Result-cases, Bool-cases, ◌||◌,
  List, [], ◌∷◌, text_eq, inl, inr, arith, true, Option-cases, some, ◌∙◌, ◌↔◌, sym, ok_injective,
  length, false,
}
use tg_files.Metadata.Table.{KeyTest, upsert, find-upsert}
use tg_files.Metadata.Table.Members.{find-same}
use tg_files.Metadata.Statements.{eqb_ℤ, text_test}
use tg_files.Store.Multipart.Sessions.Stepping.{open_upload-find}
use tg_files.Store.Multipart.{bucket_chat_id}
use tg_files.Store.Multipart.{UploadRecord, UploadConfig, UploadedFile, chunk_records}
use tg_files.Golang.Int64.{ℤ, pos, ltb_ℤ}
use tg_files.Store.Types.{Failure}
use tg_files.Store.Multipart.{
  ObjectStore, open_upload, CompletedPart, complete_parts, MultipartPart, MultipartUpload,
  find_part, eqb_ℤ, find_upload, upsert, upload_id, part_number,
}
use tg_files.Metadata.Objects
use tg_files.Metadata.Types.{Time, Object, Chunk}
use tg_files.Metadata.Sql.{DbError, Session}
use tg_files.Metadata.Sql.Atomic.{IsAtomic-transaction}
use tg_files.Store.Multipart.Handlers.{
  complete_multipart_upload, close_upload, build_multipart_object, store_part, hex_encode,
  upload_multipart_part_chunks, upload_part, sent_part,
}

-- The tables, the uploads and the files that nobody needs are those of another store.
abbrev pub IsLeft : ObjectStore → ObjectStore → Type 0
IsLeft s t =
    (t.session.db ≡ s.session.db)
    × (t.multipart_uploads ≡ s.multipart_uploads)
    × (t.orphans ≡ s.orphans)

put_object_atomic :
    (object : Object) (chunks : List Chunk) (s : Session) (d : DbError)
    → (Objects.put_object object chunks s).0 ≡ err d
    → (Objects.put_object object chunks s).1.db ≡ s.db
unfolding Objects.put_object
put_object_atomic object chunks s d h = (IsAtomic-transaction _).at s d h

close_upload-IsLeft :
    (md5 : Text → Text) (id etag : Text) (s : ObjectStore) (r : Result DbError Unit × Session)
    (e : Failure)
    → ((d : DbError) → r.0 ≡ err d → r.1.db ≡ s.session.db)
    → (close_upload md5 id etag s r).0 ≡ err e
    → IsLeft s (close_upload md5 id etag s r).1
close_upload-IsLeft md5 id etag s (err d, session) e h fails = (h d refl, refl, refl)
close_upload-IsLeft md5 id etag s (ok _, session) e h fails = cc

-- A CompleteMultipartUpload that fails, by its own tests, by a part or an order that it refuses, or
-- by a statement that the engine refuses, has left the four tables, the open uploads with all their
-- parts, and the list of orphans as they were.
pub complete_multipart_upload-IsLeft :
    (md5 : Text → Text) (s : ObjectStore) (id bucket key : Text) (requested : List CompletedPart)
    (now : Time) (e : Failure)
    → (complete_multipart_upload md5 id bucket key requested now s).0 ≡ err e
    → IsLeft s (complete_multipart_upload md5 id bucket key requested now s).1
unfolding complete_multipart_upload
complete_multipart_upload-IsLeft md5 s id bucket key [] now e fails = (refl, refl, refl)
complete_multipart_upload-IsLeft md5 s id bucket key (first ∷ rest) now e fails =
    elim (Bool-cases (text_eq id [])) [
      | inl unnamed ↦ rw (unnamed, complete_multipart_upload) (refl, refl, refl)
      | inr named ↦ elim (Result-cases (open_upload id bucket key s)) [
        | inl (x, closed) ↦ rw (named, closed, complete_multipart_upload) (refl, refl, refl)
        | inr (upload, opened) ↦
            elim (Result-cases (complete_parts (pos 0) upload.parts (first ∷ rest))) [
              | inl (x, refused) ↦
                  rw (named, opened, refused, complete_multipart_upload) (refl, refl, refl)
              | inr (parts, complete) ↦
                  let (object, chunks) =
                    build_multipart_object md5 bucket key upload.content_type parts now in
                  rw (named, opened, complete, complete_multipart_upload)
                    (close_upload-IsLeft md5 id object.etag s
                      (Objects.put_object object chunks s.session) e
                      (put_object_atomic object chunks s.session)
                      (rw (named, opened, complete, complete_multipart_upload) at fails))
            ]
      ]
    ]

eqb_ℤ_iff : (j k : ℤ) → (eqb_ℤ j k ≡ true) ↔ (j ≡ k)
unfolding eqb_ℤ
eqb_ℤ_iff j k = ground arith

number_test : KeyTest eqb_ℤ
number_test = record { same_iff = eqb_ℤ_iff }

open_upload-named :
    (id bucket key : Text) (s : ObjectStore) (upload : MultipartUpload)
    → open_upload id bucket key s ≡ ok upload
    → (text_eq upload.bucket bucket ≡ true) × (text_eq upload.key key ≡ true)
unfolding open_upload
open_upload-named id bucket key s upload e =
    elim (Option-cases (find_upload id s.multipart_uploads)) [
      | inl missing ↦ absurd (ground arith)
      | inr (found, there) ↦ (ground arith, ground arith)
    ]

-- The part that the other critical section stores, behind it.
module _ (id bucket key : Text) (part : MultipartPart) (s : ObjectStore) where
  -- What is open behind it: the upload with the part in the place of what had its number.
  abbrev pub IsShown : ℤ → Text → ObjectStore → Type 0
  IsShown n etag t =
      (etag ≡ part.etag)
      × (before : MultipartUpload) × (open_upload id bucket key s ≡ ok before)
      × (after : MultipartUpload) × (open_upload id bucket key t ≡ ok after)
      × (find_part n after.parts
          ≡ (if eqb_ℤ part.number n then some part else find_part n before.parts))

  reopened :
      (before : MultipartUpload) (parts : List MultipartPart) (orphans : List UploadRecord)
      → open_upload id bucket key s ≡ ok before
      → text_eq before.id id ≡ true
      → open_upload id bucket key (record s {
        multipart_uploads =
            upsert upload_id text_eq (record before { parts = parts }) s.multipart_uploads;
        orphans = orphans;
      })
        ≡ ok (record before { parts = parts })
  unfolding open_upload
  reopened before parts orphans opened same =
      let after : MultipartUpload = record before { parts = parts } in
      let named = open_upload-named id bucket key s before opened in
      let at : find_upload id (upsert upload_id text_eq after s.multipart_uploads) ≡ some after =
        unfold find_upload in
        (find-upsert upload_id text_eq text_test after id s.multipart_uploads ∙ rw same refl) in
      rw (at, named.0, named.1, open_upload) refl

  store_part-IsShown :
      (n : ℤ) (etag : Text)
      → (store_part id bucket key part s).0 ≡ ok etag
      → IsShown n etag (store_part id bucket key part s).1
  unfolding store_part
  store_part-IsShown n etag e = elim (Result-cases (open_upload id bucket key s)) [
    | inl (x, closed) ↦ absurd (ground arith)
    | inr (before, opened) ↦
        let same : text_eq before.id id ≡ true =
          find-same upload_id text_eq id before s.multipart_uploads
            (unfold find_upload in open_upload-find id bucket key s before opened) in
        let orphans : List UploadRecord = s.orphans ++ (elim (find_part part.number before.parts) [
          | none ↦ []
          | some old ↦ chunk_records old.chunks
        ]) in
        rw (opened, store_part)
          (
            sym (ok_injective (rw (opened, store_part) at e)),
            before,
            refl,
            _,
            reopened before _ orphans opened same,
            unfold find_part in find-upsert part_number eqb_ℤ number_test part n before.parts,
          )
  ]

-- What a part that Telegram took holds.
abbrev pub Holds : (Text → Text) → ℤ → ℤ → Text → MultipartPart → Type 0
Holds md5 number size body part =
    (part.number ≡ number)
    × (part.etag ≡ hex_encode (md5 body))
    × (part.md5_bytes ≡ md5 body)
    × (part.size ≡ size)
    × (size ≡ pos (length body))

module _ (md5 sha256 : Text → Text) (config : UploadConfig)
    (send : Text → Result Failure UploadedFile) where
  upload_multipart_part_chunks-size :
      (number size : ℤ) (body : Text) (part : MultipartPart)
      → upload_multipart_part_chunks md5 config number size body sha256 send ≡ ok part
      → size ≡ pos (length body)
  unfolding upload_multipart_part_chunks
  upload_multipart_part_chunks-size number size body part e = ground arith

  upload_multipart_part_chunks-Holds :
      (number size : ℤ) (body : Text) (part : MultipartPart)
      → upload_multipart_part_chunks md5 config number size body sha256 send ≡ ok part
      → Holds md5 number size body part
  unfolding upload_multipart_part_chunks sent_part
  upload_multipart_part_chunks-Holds number size body part e =
      let whole : size ≡ pos (length body) =
        upload_multipart_part_chunks-size number size body part e in
      elim (Result-cases (send body)) [
        | inl (refused, fails) ↦ absurd (ground arith)
        | inr (file, sent) ↦
            let made : sent_part md5 sha256 number size body file ≡ part = ground arith in
            rw (← made) (refl, refl, refl, refl, whole)
      ]

module _ (md5 sha256 : Text → Text) (config : UploadConfig)
    (upload : Text → Text → Result Failure UploadedFile) where
  -- UploadPart that returns has been asked for a part number above 0, with a body as long as it said;
  -- it returns the MD5 of the body, and behind it the upload that was open when Telegram had the part,
  -- whatever other requests had done by then, is open with all the parts that it had, but for the part
  -- of this number, which has the body's MD5 and size.
  pub upload_part-IsShown :
      (meanwhile : ObjectStore → ObjectStore) (id bucket key body etag : Text) (number size n : ℤ)
      (s : ObjectStore)
      → (upload_part md5 sha256 config upload meanwhile id bucket key number size body s).0
        ≡ ok etag
      → (ltb_ℤ number (pos 1) ≡ false)
        × (etag ≡ hex_encode (md5 body))
        × (part : MultipartPart) × Holds md5 number size body part
        × IsShown id bucket key part
            (meanwhile s)
            n
            etag
            (upload_part md5 sha256 config upload meanwhile id bucket key number size body s).1
  unfolding upload_part
  upload_part-IsShown meanwhile id bucket key body etag number size n s e =
      elim (Bool-cases (ltb_ℤ number (pos 1) || text_eq id [] || ltb_ℤ size (pos 0))) [
        | inl invalid ↦ absurd (ground arith)
        | inr valid ↦ elim (Result-cases (open_upload id bucket key s)) [
          | inl (x, closed) ↦ absurd (ground arith)
          | inr (found, opened) ↦
              elim (Result-cases (
                upload_multipart_part_chunks md5 config number size body sha256
                  (upload (bucket_chat_id bucket s)))) [
                    | inl (x, fails) ↦ absurd (ground arith)
                    | inr (part, made) ↦
                        let held =
                          upload_multipart_part_chunks-Holds md5 sha256 config
                            (upload (bucket_chat_id bucket s)) number size body part made in
                        let shown =
                          store_part-IsShown id bucket key part (meanwhile s) n etag
                            (rw (valid, opened, made, upload_part) at e) in
                        (
                          ground arith,
                          shown.0 ∙ held.1,
                          part,
                          held,
                          rw (valid, opened, made, upload_part) shown,
                        )
                  ]
        ]
      ]
