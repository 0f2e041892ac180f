-- ===== src/S3Api/SigV4/Bounds.antt =====
-- SigV4Verifier.Verify: how long a presigned request is accepted.
use tg_files.Common.{
  Text, codes, Bool, true, false, ◌&&◌, List, [], ◌∷◌, Option, none, some, ◌≡◌, refl, arith, ◌∙◌,
  sym, ok, Option-cases, inl, inr, false≢true, if_true,
}
use tg_files.Golang.Int64.{ℤ, pos, ltb_ℤ, leb_ℤ}
use tg_files.S3Api.SigV4.{
  Request, SigV4Authorization, Identity, header_get, parse_sig_v4_request_auth, dated, week,
  parse_sig_v4_query_authorization, parse_sig_v4_authorization, authorization_of,
  authorization_with, authorization_of_fields,
}
use tg_files.S3Api.SigV4.Verify.{
  Libraries, SigV4Verifier, verify, verify_auth, is_presigned_request_time, is_time, later,
}

authorization_with-fields :
    (scope : Option (Text × Text × Text × Text)) (headers : List Text) (signature x_amz_date : Text)
    (expires : ℤ) (presigned : Bool) (auth : SigV4Authorization)
    → authorization_with scope headers signature x_amz_date expires presigned ≡ some auth
    → (auth.expires ≡ expires) × (auth.presigned ≡ presigned)
unfolding authorization_with
authorization_with-fields none headers signature x_amz_date expires presigned auth e = cc
authorization_with-fields (some scope) [] signature x_amz_date expires presigned auth e = cc
authorization_with-fields (some scope) ([] ∷ headers) signature x_amz_date expires presigned auth
      e =
    cc
authorization_with-fields (some (a, d, r, s)) ((c ∷ h) ∷ headers) signature x_amz_date expires
      presigned auth e =
    (ground arith, ground arith)

authorization_of_fields-presigned :
    (values : Option (List (Text × Text))) (auth : SigV4Authorization)
    → authorization_of_fields values ≡ some auth
    → auth.presigned ≡ false
unfolding authorization_of_fields authorization_of
authorization_of_fields-presigned none auth e = cc
authorization_of_fields-presigned (some values) auth e =
    ground (arith, authorization_with-fields _ _ _ _ _ _ auth)

parse_sig_v4_authorization-presigned :
    (header : Text) (auth : SigV4Authorization)
    → parse_sig_v4_authorization header ≡ some auth
    → auth.presigned ≡ false
unfolding parse_sig_v4_authorization
parse_sig_v4_authorization-presigned header auth e =
    ground (arith, authorization_of_fields-presigned _ auth)

module _ (lib : Libraries) where
  query_authorization-expires :
      (query : Text → Text) (auth : SigV4Authorization)
      → parse_sig_v4_query_authorization lib.parse_duration query ≡ some auth
      → (leb_ℤ auth.expires (pos 0) ≡ false) × (ltb_ℤ week auth.expires ≡ false)
  unfolding parse_sig_v4_query_authorization authorization_of
  query_authorization-expires query auth e =
      ground (arith, authorization_with-fields _ _ _ _ _ _ auth)

  dated-presigned :
      (x_amz_date header : Text) (parsed : Option SigV4Authorization) (auth : SigV4Authorization)
      → parse_sig_v4_authorization header ≡ parsed
      → dated x_amz_date parsed ≡ some auth
      → auth.presigned ≡ false
  unfolding dated
  dated-presigned x_amz_date header none auth p e = cc
  dated-presigned x_amz_date header (some first) auth p e =
      let of_header = parse_sig_v4_authorization-presigned header first p in ground arith

  request_auth-expires :
      (r : Request) (auth : SigV4Authorization)
      → parse_sig_v4_request_auth lib.parse_duration r ≡ some auth
      → auth.presigned ≡ true
      → ltb_ℤ week auth.expires ≡ false
  unfolding parse_sig_v4_request_auth
  request_auth-expires r auth e presigned =
      elim (header_get r (codes "Authorization"))
          as (λ h. h ≡ header_get r (codes "Authorization") → ltb_ℤ week auth.expires ≡ false) [
            | [] ↦ λ p.
                (query_authorization-expires r.query auth (
                  unfold parse_sig_v4_request_auth in (rw (← p, parse_sig_v4_request_auth) at e))).1
            | c ∷ h ↦ λ p. absurd (
                false≢true (
                  sym (
                    dated-presigned (header_get r (codes "X-Amz-Date")) (c ∷ h) _ auth refl
                      (rw (← p, parse_sig_v4_request_auth) at e))
                  ∙ presigned))
          ]
        refl

  is_presigned_request_time-bounds :
      (v : SigV4Verifier) (now : ℤ) (x_amz_date date : Text) (expires : ℤ)
      → is_presigned_request_time lib v now x_amz_date date expires ≡ true
      → (signed_at : ℤ) × (lib.parse_time x_amz_date ≡ some signed_at)
        × (ltb_ℤ (later signed_at expires) now ≡ false)
        × (ltb_ℤ (pos 0) v.max_skew && ltb_ℤ (later now v.max_skew) signed_at ≡ false)
  unfolding is_presigned_request_time
  is_presigned_request_time-bounds v now x_amz_date date expires h =
      elim (Option-cases (lib.parse_time x_amz_date)) [
        | inl unread ↦ ground arith
        | inr (signed_at, read) ↦ (signed_at, read, ground arith, ground arith)
      ]

  within_week :
      (now signed_at expires : ℤ)
      → ltb_ℤ (later signed_at expires) now ≡ false
      → ltb_ℤ week expires ≡ false
      → leb_ℤ now (later signed_at week) ≡ true
  within_week now signed_at expires h k = ground arith

  verify_auth-is_time :
      (v : SigV4Verifier) (now : ℤ) (r : Request) (auth : SigV4Authorization) (identity : Identity)
      → verify_auth lib v now r auth ≡ ok identity
      → (is_time lib v now auth ≡ true) × (identity.presigned ≡ auth.presigned)
  unfolding verify_auth
  verify_auth-is_time v now r auth identity e = (ground arith, ground arith)

  -- A presigned request that Verify accepts has a time of signing that reads, and the clock is at most
  -- a week behind it; with a positive skew, that time is at most the skew after the clock.
  pub verify-presigned :
      (v : SigV4Verifier) (now : ℤ) (r : Request) (identity : Identity)
      → verify lib v now r ≡ ok identity
      → identity.presigned ≡ true
      → (auth : SigV4Authorization) × (signed_at : ℤ) × (parse_sig_v4_request_auth
            lib.parse_duration r
          ≡ some auth)
        × (lib.parse_time auth.x_amz_date ≡ some signed_at)
        × (leb_ℤ now (later signed_at week) ≡ true)
        × (ltb_ℤ (pos 0) v.max_skew && ltb_ℤ (later now v.max_skew) signed_at ≡ false)
  unfolding verify
  verify-presigned v now r identity e presigned =
      elim (Option-cases (parse_sig_v4_request_auth lib.parse_duration r)) [
        | inl unread ↦ absurd (ground arith)
        | inr (auth, read) ↦
            let accepted : verify_auth lib v now r auth ≡ ok identity = rw (read, verify) at e in
            let (timely, same) = verify_auth-is_time v now r auth identity accepted in
            let by_query : auth.presigned ≡ true = sym same ∙ presigned in
            let (signed_at, at, unexpired, skew) =
              is_presigned_request_time-bounds v now auth.x_amz_date auth.date auth.expires
                (unfold is_time in sym (if_true _ _ by_query) ∙ timely) in
            (
              auth,
              signed_at,
              read,
              at,
              within_week now signed_at auth.expires unexpired
                  (request_auth-expires r auth read by_query),
              skew,
            )
      ]
