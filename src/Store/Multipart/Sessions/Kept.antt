-- ===== src/Store/Multipart/Sessions/Kept.antt =====
-- Every step keeps the sessions tidy.
use tg_files.Common.{
  suc, ◌≤◌, Text, true, not, List, [], ◌∷◌, Bool-cases, inl, inr, ◌≡◌, refl, arith, text_eq,
  text_eq_refl, All, length, ltb, if◌then◌else◌, ap,
}
use tg_files.Metadata.Table.{Unique, has_key, without, Unique-select}
use tg_files.Metadata.Table.Members.{length-without_lt, All-without}
use tg_files.Store.Multipart.{
  ObjectStore, MultipartUpload, upload_id, max_multipart_uploads, oldest_of, before, drop_upload,
  evict_oldest_multipart_upload,
}
use tg_files.Store.Multipart.Sessions.{IsTidy, IsSizedUpload}

-- A key that one of the rows has.
has_key-first :
    (k : Text) (u v : MultipartUpload) (uploads : List MultipartUpload)
    → has_key upload_id text_eq k (u ∷ uploads) ≡ true
    → has_key upload_id text_eq k (u ∷ v ∷ uploads) ≡ true
unfolding has_key
has_key-first k u v uploads h = ground arith

has_key-rest :
    (k : Text) (u : MultipartUpload) (uploads : List MultipartUpload)
    → has_key upload_id text_eq k uploads ≡ true
    → has_key upload_id text_eq k (u ∷ uploads) ≡ true
unfolding has_key
has_key-rest k u uploads h = ground arith

has_key_alone : (u : MultipartUpload) → has_key upload_id text_eq u.id (u ∷ []) ≡ true
unfolding has_key
has_key_alone u = rw (text_eq_refl u.id) refl

-- The upload that eviction picks is one of the map's.
has_key-oldest_of :
    (upload : MultipartUpload) (uploads : List MultipartUpload)
    → has_key upload_id text_eq (oldest_of upload uploads).id (upload ∷ uploads) ≡ true
unfolding oldest_of
has_key-oldest_of u [] = has_key_alone u
has_key-oldest_of u (v ∷ vs) = elim (Bool-cases (before v.created_at u.created_at)) [
  | inl older ↦
      let picked : oldest_of u (v ∷ vs) ≡ oldest_of v vs =
        ap (λ b. oldest_of (if b then v else u) vs) older in
      rw picked (has_key-rest (oldest_of v vs).id u (v ∷ vs) (has_key-oldest_of v vs))
  | inr younger ↦
      let picked : oldest_of u (v ∷ vs) ≡ oldest_of u vs =
        ap (λ b. oldest_of (if b then v else u) vs) younger in
      rw picked (has_key-first (oldest_of u vs).id u v vs (has_key-oldest_of u vs))
]

module _ (content : Text → Text) where
  pub drop-IsTidy :
      (upload : MultipartUpload) (s : ObjectStore)
      → length (without upload_id text_eq upload.id s.multipart_uploads) ≤ max_multipart_uploads
      → Unique upload_id text_eq s.multipart_uploads
      → All (IsSizedUpload content) s.multipart_uploads
      → IsTidy content (drop_upload upload s)
  unfolding drop_upload without
  drop-IsTidy upload s h u z = record {
    bounded = h;
    unique =
        Unique-select upload_id text_eq (λ v. not (text_eq v.id upload.id)) s.multipart_uploads u;
    sized = All-without upload_id text_eq (IsSizedUpload content) upload.id s.multipart_uploads z;
  }

  pub evict-IsTidy :
      (s : ObjectStore) (uploads : List MultipartUpload)
      → s.multipart_uploads ≡ uploads
      → length s.multipart_uploads ≤ suc max_multipart_uploads
      → Unique upload_id text_eq s.multipart_uploads
      → All (IsSizedUpload content) s.multipart_uploads
      → IsTidy content (evict_oldest_multipart_upload s)
  unfolding evict_oldest_multipart_upload
  evict-IsTidy s [] e h u z =
      rw (e, evict_oldest_multipart_upload)
        (record { bounded = rw e (omega arith); unique = u; sized = z })
  evict-IsTidy s (v ∷ vs) e h u z =
      elim (Bool-cases (ltb max_multipart_uploads (suc (length vs)))) [
        | inl over ↦
            let fewer =
              length-without_lt upload_id text_eq (oldest_of v vs).id (v ∷ vs)
                (has_key-oldest_of v vs) in
            rw (e, over, evict_oldest_multipart_upload)
              (drop-IsTidy (oldest_of v vs) s (rw e (ground arith)) u z)
        | inr within ↦
            rw (e, within, evict_oldest_multipart_upload)
              (record { bounded = rw e (ground arith); unique = u; sized = z })
      ]
