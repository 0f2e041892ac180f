-- ===== src/Store/Objects/Puts.antt =====
-- What GetObject yields of an object that PutObject sent as a document.
use tg_files.Common.{
  ℕ, ◌+◌, ◌-◌, ◌≤◌, ◌<◌, Text, ◌≡◌, refl, true, false, ◌&&◌, [], ◌∷◌, some, ok, Result, take, drop,
  length, ap, arith, append-nil, sym, subst,
}
use tg_files.Golang.Int64.{pos, int64_max, ltb_ℤ}
use tg_files.Metadata.Types.{Object, Time, Db}
use tg_files.Metadata.Sql.{calm}
use tg_files.Metadata.Objects.RoundTrip.{get_object-put_object, to_seconds}
use tg_files.Metadata.Objects.Stored.{put_object-calm, stored}
use tg_files.Metadata.Statements.{eqb_ℤ}
use tg_files.Store.Types.{Failure}
use tg_files.Store.Multipart.{ObjectStore, UploadedFile, head_bucket, startup_names, bucket_chat_id}
use tg_files.Store.Multipart.Handlers.{hex_encode}
use tg_files.Store.Multipart.Layout.{chunk_refs_from_metadata}
use tg_files.Store.UploadStrategy.{
  UploadConfig, UploadStrategy, one_of, resolve, type_limit, document,
}
use tg_files.Store.Range.Reassembly.{object_bytes}
use tg_files.Store.Objects.{put_object, base, read_object, put_single, single_object, single_chunk}
use tg_files.Store.Objects.Reads.{read_object-range}

abbrev pub as_document : UploadStrategy
as_document = record { telegram_type = document; upload_strategy = document }

module _ (md5 sha256 : Text → Text) (config : UploadConfig)
    (upload : Text → Text → Text → Result Failure UploadedFile) (random : Text) where
  abbrev pub document_object : Text → Text → Text → Text → UploadedFile → Time → Object
  document_object bucket key content_type body file now =
      single_object md5 sha256 config upload random bucket key content_type (pos (length body)) body
        as_document file now

  -- PutObject of a document that Telegram takes is one PutObject of the metadata store.
  put_object-document :
      (bucket key content_type body : Text) (now : Time) (db : Db) (file : UploadedFile)
      (s : ObjectStore)
      → one_of bucket (startup_names s) ≡ true
      → resolve config (base key) content_type (pos (length body)) ≡ ok as_document
      → ltb_ℤ (pos 0) (type_limit config.type_limits document)
          && ltb_ℤ (type_limit config.type_limits document) (pos (length body))
        ≡ false
      → 0 < length body
      → upload (bucket_chat_id bucket s) document body ≡ ok file
      → s.session ≡ calm db
      → let object = document_object bucket key content_type body file now in
        put_object md5 sha256 config upload random bucket key content_type
          (pos (length body))
          body
          now
          s
        ≡ (
          ok (hex_encode (md5 body)),
          record s {
            session =
                calm (
                  stored object (single_chunk md5 sha256 config upload random object file ∷ []) db);
          },
        )
  unfolding put_object put_single single_object single_chunk head_bucket
  put_object-document bucket key content_type body now db file s served strategy limit nonempty sent
        e =
      let object = document_object bucket key content_type body file now in
      let filled : eqb_ℤ (pos (length body)) (pos 0) ≡ false = unfold eqb_ℤ in ground arith in
      let nonneg : ltb_ℤ (pos (length body)) (pos 0) ≡ false = ground arith in
      let counted : eqb_ℤ (pos (length body)) (pos (length body)) ≡ true =
        unfold eqb_ℤ in ground arith in
      let chunk = single_chunk md5 sha256 config upload random object file in
      let written = put_object-calm object (chunk ∷ []) db (refl, refl, tt) in
      rw
        (
          nonneg, served, strategy, filled, limit, counted, sent, e, written, put_object,
          head_bucket, put_single,
        )
        refl

  -- PutObject of a document in a served bucket that Resolve and the limit accept, with a body, no
  -- longer than the largest int64, that Telegram takes and gives back whole, on a session whose engine
  -- refuses nothing, returns the MD5 of the body in hexadecimal; GetObject of a range inside of it
  -- then yields the object that was put, with its time cut to whole seconds, and exactly the bytes of
  -- the range.
  pub read_object-put_object :
      (content : Text → Text) (bucket key content_type body : Text) (now : Time) (db : Db)
      (file : UploadedFile) (s : ObjectStore) (a b : ℕ)
      → one_of bucket (startup_names s) ≡ true
      → resolve config (base key) content_type (pos (length body)) ≡ ok as_document
      → ltb_ℤ (pos 0) (type_limit config.type_limits document)
          && ltb_ℤ (type_limit config.type_limits document) (pos (length body))
        ≡ false
      → upload (bucket_chat_id bucket s) document body ≡ ok file
      → content file.file_id ≡ body
      → s.session ≡ calm db
      → length body ≤ int64_max
      → a ≤ b
      → b < length body
      → ((put_object md5 sha256 config upload random bucket key content_type
            (pos (length body))
            body
            now
            s).0
          ≡ ok (hex_encode (md5 body)))
        × ((read_object content bucket key
              (some (record { start = pos a; end = pos b }))
              (put_object md5 sha256 config upload random bucket key content_type
                (pos (length body))
                body
                now
                s).1).0
            ≡ ok (
              to_seconds (document_object bucket key content_type body file now),
              take (b + 1 - a) (drop a body),
            ))
  unfolding chunk_refs_from_metadata single_object single_chunk
  read_object-put_object content bucket key content_type body now db file s a b served strategy
        limit sent kept e fits h k =
      let object = document_object bucket key content_type body file now in
      let chunk = single_chunk md5 sha256 config upload random object file in
      let done =
        put_object-document bucket key content_type body now db file s served strategy limit
          (omega arith) sent e in
      let written = put_object-calm object (chunk ∷ []) db (refl, refl, tt) in
      let found = (get_object-put_object object (chunk ∷ []) db (refl, refl, tt)).1 in
      let whole : object_bytes content (chunk_refs_from_metadata (chunk ∷ [])) ≡ body =
        rw (kept, append-nil) refl in
      rw done (
        refl,
        subst
            (λ t.
              (read_object content bucket key (some (record { start = pos a; end = pos b }))
                (record s { session = calm (stored object (chunk ∷ []) db) })).0
              ≡ ok (to_seconds object, take (b + 1 - a) (drop a t)))
            whole
            (read_object-range content bucket key a b
              (record s { session = calm (stored object (chunk ∷ []) db) }) (to_seconds object)
              (chunk ∷ []) served (rw (sym (ap (λ r. r.1) written)) found)
              (refl, ap (λ t. pos (length t)) (sym kept), tt) h (rw whole k) (rw whole fits)),
      )
