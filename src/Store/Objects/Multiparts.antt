-- ===== src/Store/Objects/Multiparts.antt =====
-- What GetObject yields of an object that CompleteMultipartUpload put together.
use tg_files.Common.{
  ℕ, ◌+◌, ◌-◌, ◌≤◌, ◌<◌, Text, ◌≡◌, refl, true, false, List, [], ◌∷◌, some, ok, take, drop, length,
  ap, arith, sym, subst, text_eq,
}
use tg_files.Golang.Int64.{pos, int64_max}
use tg_files.Metadata.Types.{Object, Chunk, Time, Db}
use tg_files.Metadata.Sql.{calm}
use tg_files.Metadata.Table.{without}
use tg_files.Metadata.Objects.RoundTrip.{get_object-put_object, to_seconds}
use tg_files.Metadata.Objects.Stored.{put_object-calm, stored, Ascends}
use tg_files.Store.Multipart.{
  ObjectStore, MultipartUpload, MultipartPart, CompletedPart, upload_id, open_upload,
  complete_parts, startup_names,
}
use tg_files.Store.Multipart.Handlers.{
  build_multipart_object, multipart_etag, complete_multipart_upload, chunks_of_parts,
}
use tg_files.Store.Multipart.Layout.{
  chunk_refs_from_metadata, all_chunks, Sized, bytes_of, lay_out, chunks_of_parts-lay_out,
  Ascends-lay_out, Contiguous-lay_out, object_bytes-lay_out,
}
use tg_files.Store.UploadStrategy.{one_of}
use tg_files.Store.Range.Reassembly.{object_bytes}
use tg_files.Metadata.Table.Members.{All-find}
use tg_files.Store.Multipart.Parts.{complete_parts_iff, All-complete_parts}
use tg_files.Store.Multipart.Sessions.{IsTidy, IsSizedUpload, IsSizedPart}
use tg_files.Store.Multipart.Sessions.Stepping.{open_upload-find}
use tg_files.Store.Multipart.Sessions.Reachable.{all_chunks-Sized}
use tg_files.Store.Multipart.{find_upload, upload_id}
use tg_files.Store.Objects.{read_object}
use tg_files.Store.Objects.Reads.{read_object-range}

module _ (md5 : Text → Text) (id bucket key : Text) (first : CompletedPart)
    (rest : List CompletedPart) (now : Time) (db : Db) (s : ObjectStore) (upload : MultipartUpload)
    (parts : List MultipartPart) where
  abbrev multipart_chunks : List Chunk
  multipart_chunks = lay_out bucket key (all_chunks parts) (pos 0) (pos 1)

  abbrev pub multipart_object : Object
  multipart_object = (build_multipart_object md5 bucket key upload.content_type parts now).0

  multipart-Ascends :
      length (all_chunks parts) < int64_max
      → Ascends bucket key (chunks_of_parts bucket key parts (pos 0) (pos 1))
  multipart-Ascends few =
      rw (chunks_of_parts-lay_out bucket key parts (pos 0) (pos 1))
        (Ascends-lay_out bucket key (all_chunks parts) few)

  -- A completed upload is one PutObject of the metadata store, and the session is gone.
  complete_multipart_upload_ok :
      text_eq id [] ≡ false
      → open_upload id bucket key s ≡ ok upload
      → complete_parts (pos 0) upload.parts (first ∷ rest) ≡ ok parts
      → s.session ≡ calm db
      → length (all_chunks parts) < int64_max
      → complete_multipart_upload md5 id bucket key (first ∷ rest) now s ≡ (
        ok (multipart_etag md5 parts),
        record s {
          session = calm (stored multipart_object multipart_chunks db);
          multipart_uploads = without upload_id text_eq id s.multipart_uploads;
        },
      )
  unfolding complete_multipart_upload build_multipart_object
  complete_multipart_upload_ok named opened completed e few =
      let written =
        put_object-calm multipart_object (chunks_of_parts bucket key parts (pos 0) (pos 1)) db
          (multipart-Ascends few) in
      rw (named, opened, completed, e, written, complete_multipart_upload)
        (rw (chunks_of_parts-lay_out bucket key parts (pos 0) (pos 1)) refl)

  read_object-multipart_chunks :
      (content : Text → Text) (a b : ℕ)
      → text_eq id [] ≡ false
      → one_of bucket (startup_names s) ≡ true
      → open_upload id bucket key s ≡ ok upload
      → complete_parts (pos 0) upload.parts (first ∷ rest) ≡ ok parts
      → s.session ≡ calm db
      → Sized content (all_chunks parts)
      → length (all_chunks parts) < int64_max
      → length (bytes_of content (all_chunks parts)) ≤ int64_max
      → a ≤ b
      → b < length (bytes_of content (all_chunks parts))
      → ((complete_multipart_upload md5 id bucket key (first ∷ rest) now s).0
          ≡ ok (multipart_etag md5 parts))
        × ((read_object content bucket key
              (some (record { start = pos a; end = pos b }))
              (complete_multipart_upload md5 id bucket key (first ∷ rest) now s).1).0
            ≡ ok (
              to_seconds multipart_object,
              take (b + 1 - a) (drop a (bytes_of content (all_chunks parts))),
            ))
  unfolding build_multipart_object
  read_object-multipart_chunks content a b named served opened completed e sized few fits h k =
      let cs = all_chunks parts in
      let ascends : Ascends bucket key multipart_chunks =
        rw (sym (chunks_of_parts-lay_out bucket key parts (pos 0) (pos 1)))
          (multipart-Ascends few) in
      let written = put_object-calm multipart_object multipart_chunks db ascends in
      let found = (get_object-put_object multipart_object multipart_chunks db ascends).1 in
      let whole : object_bytes content (chunk_refs_from_metadata multipart_chunks)
          ≡ bytes_of content cs =
        object_bytes-lay_out bucket key content cs (pos 0) (pos 1) in
      let s' : ObjectStore = record s {
        session = calm (stored multipart_object multipart_chunks db);
        multipart_uploads = without upload_id text_eq id s.multipart_uploads;
      } in
      rw (complete_multipart_upload_ok named opened completed e few) (
        refl,
        subst
            (λ t.
              (read_object content bucket key (some (record { start = pos a; end = pos b })) s').0
              ≡ ok (to_seconds multipart_object, take (b + 1 - a) (drop a t)))
            whole
            (read_object-range content bucket key a b s' (to_seconds multipart_object)
              multipart_chunks served (rw (sym (ap (λ r. r.1) written)) found)
              (Contiguous-lay_out bucket key content cs 0 (pos 1) sized (omega arith)) h
              (rw whole k) (rw whole fits)),
      )

  -- CompleteMultipartUpload in a served bucket of an open upload with a name, with a request that
  -- completeParts accepts, on tidy sessions and an engine that refuses nothing, where the chunks and
  -- their bytes are no more than an int64 counts, returns the multipart ETag; GetObject of a range
  -- inside of the parts then yields the object that was built, with its time cut to whole seconds,
  -- and exactly these bytes of the files of the requested parts, one behind the other.
  pub read_object-complete_multipart_upload :
      (content : Text → Text) (a b : ℕ)
      → text_eq id [] ≡ false
      → one_of bucket (startup_names s) ≡ true
      → open_upload id bucket key s ≡ ok upload
      → complete_parts (pos 0) upload.parts (first ∷ rest) ≡ ok parts
      → s.session ≡ calm db
      → IsTidy content s
      → length (all_chunks parts) < int64_max
      → length (bytes_of content (all_chunks parts)) ≤ int64_max
      → a ≤ b
      → b < length (bytes_of content (all_chunks parts))
      → ((complete_multipart_upload md5 id bucket key (first ∷ rest) now s).0
          ≡ ok (multipart_etag md5 parts))
        × ((read_object content bucket key
              (some (record { start = pos a; end = pos b }))
              (complete_multipart_upload md5 id bucket key (first ∷ rest) now s).1).0
            ≡ ok (
              to_seconds multipart_object,
              take (b + 1 - a) (drop a (bytes_of content (all_chunks parts))),
            ))
  unfolding find_upload
  read_object-complete_multipart_upload content a b named served opened completed e tidy few fits h
        k =
      let found = open_upload-find id bucket key s upload opened in
      let sized =
        All-find upload_id text_eq (IsSizedUpload content) id upload s.multipart_uploads tidy.sized
          found in
      let complete = (complete_parts_iff upload.parts (pos 0) (first ∷ rest) parts).0 completed in
      let all =
        All-complete_parts upload.parts (IsSizedPart content) (pos 0) (first ∷ rest) parts sized
          complete in
      read_object-multipart_chunks content a b named served opened completed e
        (all_chunks-Sized content parts all) few fits h k
