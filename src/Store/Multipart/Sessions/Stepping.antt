-- ===== src/Store/Multipart/Sessions/Stepping.antt =====
-- Every handler of multipart uploads keeps the sessions tidy.
use tg_files.Common.{
  suc, ◌≤◌, Text, not, [], some, Option, Option-cases, Bool-cases, inl, inr, ◌≡◌, refl, arith, ok,
  Result, Result-cases, text_eq, All, length, subst, ap, sym, ◌∙◌,
}
use tg_files.Golang.Int64.{ℤ, pos}
use tg_files.Metadata.Types.{Time}
use tg_files.Metadata.Table.{Unique, upsert, without, Unique-upsert, Unique-select}
use tg_files.Metadata.Table.Members.{
  length-upsert, length-without, has_key-find, length-upsert_there, All-upsert, All-without,
  All-find,
}
use tg_files.Metadata.Statements.{text_test, eqb_ℤ}
use tg_files.Store.Types.{Failure}
use tg_files.Store.UploadStrategy.{UploadConfig}
use tg_files.Store.Multipart.{
  ObjectStore, MultipartUpload, MultipartPart, UploadedFile, upload_id, part_number,
  max_multipart_uploads, create_multipart_upload, abort_multipart_upload, head_bucket, find_upload,
  open_upload,
}
use tg_files.Store.Multipart.Handlers.{upload_multipart_part_chunks, store_part, sent_part}
use tg_files.Store.Multipart.Sessions.{IsTidy, IsSizedPart, IsSizedUpload}
use tg_files.Store.Multipart.Sessions.Kept.{drop-IsTidy, evict-IsTidy}

pub open_upload-find :
    (id bucket key : Text) (s : ObjectStore) (upload : MultipartUpload)
    → open_upload id bucket key s ≡ ok upload
    → find_upload id s.multipart_uploads ≡ some upload
unfolding open_upload
open_upload-find id bucket key s upload e =
    elim (Option-cases (find_upload id s.multipart_uploads)) [
      | inl missing ↦ ground arith
      | inr (found, there) ↦ ground arith
    ]

module _ (content : Text → Text) where
  -- Another or a changed upload in the map.
  upsert-IsTidy :
      (upload : MultipartUpload) (s : ObjectStore)
      → IsSizedUpload content upload
      → IsTidy content s
      → (length (upsert upload_id text_eq upload s.multipart_uploads) ≤ suc max_multipart_uploads)
        × Unique upload_id text_eq (upsert upload_id text_eq upload s.multipart_uploads)
        × All (IsSizedUpload content) (upsert upload_id text_eq upload s.multipart_uploads)
  upsert-IsTidy upload s sized t = (
    omega (arith, length-upsert upload_id text_eq upload s.multipart_uploads, t.bounded),
    Unique-upsert upload_id text_eq text_test upload s.multipart_uploads t.unique,
    All-upsert upload_id text_eq (IsSizedUpload content) upload s.multipart_uploads sized t.sized,
  )

  pub create_multipart_upload-IsTidy :
      (s : ObjectStore) (bucket key content_type : Text) (id : Option Text) (now : Time)
      → IsTidy content s
      → IsTidy content (create_multipart_upload bucket key content_type id now s).1
  unfolding create_multipart_upload
  create_multipart_upload-IsTidy s bucket key content_type id now t =
      elim (Result-cases (head_bucket bucket s)) [
        | inl (e, refused) ↦ rw (refused, create_multipart_upload) t
        | inr (_, served) ↦ elim (Option-cases id) [
          | inl none_drawn ↦ rw (served, none_drawn, create_multipart_upload) t
          | inr (name, drawn) ↦
              let upload : MultipartUpload = record {
                id = name;
                bucket = bucket;
                key = key;
                content_type = content_type;
                created_at = now;
                parts = [];
              } in
              let (l, u, z) = upsert-IsTidy upload s tt t in
              rw (served, drawn, create_multipart_upload)
                (evict-IsTidy content
                  (record s {
                    multipart_uploads = upsert upload_id text_eq upload s.multipart_uploads;
                  })
                  (upsert upload_id text_eq upload s.multipart_uploads) refl l u z)
        ]
      ]

  pub without-IsTidy :
      (s : ObjectStore) (id : Text)
      → IsTidy content s
      → IsTidy content
          (record s { multipart_uploads = without upload_id text_eq id s.multipart_uploads })
  unfolding without
  without-IsTidy s id t = record {
    bounded = omega (arith, length-without upload_id text_eq id s.multipart_uploads, t.bounded);
    unique =
        Unique-select upload_id text_eq (λ v. not (text_eq v.id id)) s.multipart_uploads t.unique;
    sized = All-without upload_id text_eq (IsSizedUpload content) id s.multipart_uploads t.sized;
  }

  pub abort_multipart_upload-IsTidy :
      (s : ObjectStore) (id bucket key : Text)
      → IsTidy content s
      → IsTidy content (abort_multipart_upload id bucket key s).1
  unfolding abort_multipart_upload
  abort_multipart_upload-IsTidy s id bucket key t = elim (Bool-cases (text_eq id [])) [
    | inl unnamed ↦ rw (unnamed, abort_multipart_upload) t
    | inr named ↦ elim (Result-cases (open_upload id bucket key s)) [
      | inl (e, closed) ↦ rw (named, closed, abort_multipart_upload) t
      | inr (upload, opened) ↦
          rw (named, opened, abort_multipart_upload)
            (drop-IsTidy content upload s
              (omega
                (arith, length-without upload_id text_eq upload.id s.multipart_uploads, t.bounded))
              t.unique t.sized)
    ]
  ]

  pub store_part-IsTidy :
      (s : ObjectStore) (id bucket key : Text) (part : MultipartPart)
      → IsSizedPart content part
      → IsTidy content s
      → IsTidy content (store_part id bucket key part s).1
  unfolding store_part find_upload
  store_part-IsTidy s id bucket key part sized t =
      elim (Result-cases (open_upload id bucket key s)) [
        | inl (e, closed) ↦ rw (closed, store_part) t
        | inr (upload, opened) ↦
            let found = open_upload-find id bucket key s upload opened in
            let before =
              All-find upload_id text_eq (IsSizedUpload content) id upload s.multipart_uploads
                t.sized found in
            let parts = upsert part_number eqb_ℤ part upload.parts in
            let changed : MultipartUpload = record upload { parts = parts } in
            let (l, u, z) =
              upsert-IsTidy changed s
                (All-upsert part_number eqb_ℤ (IsSizedPart content) part upload.parts sized before)
                t in
            let kept =
              length-upsert_there upload_id text_eq text_test changed s.multipart_uploads
                (has_key-find upload_id text_eq text_test id upload s.multipart_uploads found) in
            rw (opened, store_part)
              (record { bounded = omega (arith, kept, t.bounded); unique = u; sized = z })
      ]

  -- A part that Telegram took: its only chunk is as long as the body.
  pub upload_multipart_part_chunks-IsSizedPart :
      (md5 sha256 : Text → Text) (config : UploadConfig) (send : Text → Result Failure UploadedFile)
      (number size : ℤ) (body : Text) (part : MultipartPart)
      → ((b : Text) (file : UploadedFile) → send b ≡ ok file → content file.file_id ≡ b)
      → upload_multipart_part_chunks md5 config number size body sha256 send ≡ ok part
      → IsSizedPart content part
  unfolding upload_multipart_part_chunks sent_part
  upload_multipart_part_chunks-IsSizedPart md5 sha256 config send number size body part kept e =
      elim (Bool-cases (eqb_ℤ (pos (length body)) size)) [
        | inr short ↦ ground arith
        | inl whole ↦ elim (Result-cases (send body)) [
          | inl (refused, fails) ↦ ground arith
          | inr (file, sent) ↦
              let made : sent_part md5 sha256 number size body file ≡ part = ground arith in
              let equal : size ≡ pos (length body) = unfold eqb_ℤ in ground arith in
              subst (IsSizedPart content) made
                (equal ∙ ap (λ t. pos (length t)) (sym (kept body file sent)), tt)
        ]
      ]
