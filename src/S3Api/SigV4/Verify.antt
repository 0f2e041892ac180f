-- ===== src/S3Api/SigV4/Verify.antt =====
-- internal/s3api/sigv4.go: SigV4Verifier.Verify.
use tg_files.Common.{
  ◌+◌, Text, codes, Bool, false, not, ◌&&◌, ◌||◌, List, [], ◌∷◌, ◌++◌, Option, none, some,
  if◌then◌else◌, text_eq, Result, ok, err,
}
use tg_files.Golang.Int64.{ℤ, pos, pos_part, neg_part, sub_ℕ, ltb_ℤ, leb_ℤ}
use tg_files.Golang.Strings.{trim, is_space}
use tg_files.Golang.Splitting.{join}
use tg_files.Store.UploadStrategy.{to_lower}
use tg_files.Store.Multipart.Handlers.{hex_encode}
use tg_files.S3Api.SigV4.{
  Request, SigV4Authorization, Identity, header_get, algorithm, parse_sig_v4_request_auth,
}
use tg_files.S3Api.SigV4.Canonical.{build_canonical_request, payload_hash, unsigned_payload}

pub data AuthError : Type 0 where
  signature_does_not_match invalid_access_key_id : AuthError

-- A time is a number of nanoseconds; a duration too.
pub record SigV4Verifier : Type 0 where
  pub region : Text
  pub keys : List (Text × Text)
  pub max_skew : ℤ

-- t.Add(d) and t.Add(-d)
abbrev pub later : ℤ → ℤ → ℤ
later t d = sub_ℕ (pos_part t + pos_part d) (neg_part t + neg_part d)

abbrev pub earlier : ℤ → ℤ → ℤ
earlier t d = sub_ℕ (pos_part t + neg_part d) (neg_part t + pos_part d)

-- v.keys[key]
unfoldable pub secret_of : Text → List (Text × Text) → Option Text
unfolding text_eq
secret_of key [] = none
secret_of key ((k, secret) ∷ keys) = if text_eq k key then some secret else secret_of key keys

-- cloneRequestWithHeader with the Accept-Encoding header
unfoldable pub with_accept_encoding : Text → Request → Request
unfolding text_eq
with_accept_encoding value r = record r {
  header = λ name. if text_eq name (codes "Accept-Encoding") then value ∷ [] else r.header name;
}

-- Is a header of the list Accept-Encoding, in any case?
unfoldable pub signs_accept_encoding : List Text → Bool
unfolding text_eq to_lower trim is_space
signs_accept_encoding [] = false
signs_accept_encoding (header ∷ headers) =
    text_eq (to_lower (trim is_space header)) (codes "accept-encoding")
    || signs_accept_encoding headers

-- What the code calls of crypto/sha256, crypto/hmac, net/http and time.
pub record Libraries : Type 0 where
  -- SHA-256, and HMAC-SHA256 of a key and a text
  pub sha256 : Text → Text
  pub hmac : Text → Text → Text
  -- http.CanonicalHeaderKey
  pub canonical_header_key : Text → Text
  -- time.ParseDuration, in nanoseconds
  pub parse_duration : Text → Option ℤ
  -- time.Parse by "20060102T150405Z", in nanoseconds since 1970
  pub parse_time : Text → Option ℤ
  -- the date of a time by "20060102", in UTC
  pub format_date : ℤ → Text

module _ (lib : Libraries) where
  -- validateRequestTime: true for no error
  unfoldable pub is_request_time : SigV4Verifier → ℤ → Text → Text → Bool
  unfolding text_eq
  is_request_time v now x_amz_date scope_date = elim (lib.parse_time x_amz_date) [
    | none ↦ false
    | some signed_at ↦
        text_eq scope_date (lib.format_date signed_at)
        && (leb_ℤ v.max_skew (pos 0)
            || not (
                ltb_ℤ signed_at (earlier now v.max_skew) || ltb_ℤ (later now v.max_skew) signed_at))
  ]

  -- validatePresignedRequestTime
  unfoldable pub is_presigned_request_time : SigV4Verifier → ℤ → Text → Text → ℤ → Bool
  unfolding text_eq
  is_presigned_request_time v now x_amz_date scope_date expires = elim (lib.parse_time x_amz_date) [
    | none ↦ false
    | some signed_at ↦
        text_eq scope_date (lib.format_date signed_at)
        && not (ltb_ℤ (pos 0) v.max_skew && ltb_ℤ (later now v.max_skew) signed_at)
        && not (ltb_ℤ (later signed_at expires) now)
  ]

  -- deriveSigningKey
  unfoldable pub derive_signing_key : Text → Text → Text → Text → Text
  derive_signing_key secret date region service =
      lib.hmac (lib.hmac (lib.hmac (lib.hmac (codes "AWS4" ++ secret) date) region) service)
        (codes "aws4_request")

  -- The signature of a canonical request: `stringToSign` and `expectedSignature`.
  unfoldable pub expected_signature : Text → SigV4Authorization → Text → Text
  unfolding derive_signing_key join hex_encode
  expected_signature secret auth canonical_request =
      let scope =
        join (auth.date ∷ auth.region ∷ auth.service ∷ codes "aws4_request" ∷ []) (codes "/") in
      let string_to_sign =
        join (algorithm ∷ auth.x_amz_date ∷ scope ∷ hex_encode (lib.sha256 canonical_request) ∷ [])
          (codes "\n") in
      hex_encode
        (lib.hmac (derive_signing_key secret auth.date auth.region auth.service) string_to_sign)

  -- Is the signature that of the request, as far as it has a canonical form?
  unfoldable pub is_signed : Text → SigV4Authorization → Text → Request → Bool
  unfolding build_canonical_request expected_signature text_eq
  is_signed secret auth hash r =
      elim (build_canonical_request lib.canonical_header_key r auth.signed_headers hash
        auth.presigned) [
          | none ↦ false
          | some canonical_request ↦
              text_eq (expected_signature secret auth canonical_request) auth.signature
        ]

  -- fallbackAcceptedByRewrittenAcceptEncoding
  unfoldable pub fallback_accepted : Text → SigV4Authorization → Text → Request → Bool
  unfolding header_get text_eq signs_accept_encoding is_signed with_accept_encoding
  fallback_accepted secret auth hash r =
      not (text_eq (header_get r (codes "Accept-Encoding")) [])
      && signs_accept_encoding auth.signed_headers
      && (is_signed secret auth hash (with_accept_encoding (codes "identity") r)
          || is_signed secret auth hash (with_accept_encoding (codes "gzip") r))

  unfoldable pub is_time : SigV4Verifier → ℤ → SigV4Authorization → Bool
  unfolding is_request_time is_presigned_request_time
  is_time v now auth =
      if auth.presigned
      then is_presigned_request_time v now auth.x_amz_date auth.date auth.expires
      else is_request_time v now auth.x_amz_date auth.date

  -- `canonicalPayloadHash`
  unfoldable pub signed_payload_hash : SigV4Authorization → Request → Option Text
  unfolding payload_hash
  signed_payload_hash auth r =
      if auth.presigned then some unsigned_payload else payload_hash lib.sha256 r

  -- Verify behind the parser.
  unfoldable pub verify_auth :
      SigV4Verifier → ℤ → Request → SigV4Authorization → Result AuthError Identity
  unfolding text_eq secret_of is_time signed_payload_hash build_canonical_request is_signed
      fallback_accepted
  verify_auth v now r auth =
      if not (text_eq auth.region v.region && text_eq auth.service (codes "s3"))
      then err signature_does_not_match
      else if text_eq auth.access_key []
      then err invalid_access_key_id
      else elim (secret_of auth.access_key v.keys) [
        | none ↦ err invalid_access_key_id
        | some secret ↦
            if text_eq auth.x_amz_date [] || not (is_time v now auth)
            then err signature_does_not_match
            else elim (signed_payload_hash auth r) [
              | none ↦ err signature_does_not_match
              | some hash ↦
                  elim (build_canonical_request lib.canonical_header_key r auth.signed_headers hash
                    auth.presigned) [
                      | none ↦ err signature_does_not_match
                      | some canonical_request ↦
                          if is_signed secret auth hash r || fallback_accepted secret auth hash r
                          then ok
                              (record { access_key = auth.access_key; presigned = auth.presigned })
                          else err signature_does_not_match
                    ]
            ]
      ]

  -- Verify
  unfoldable pub verify : SigV4Verifier → ℤ → Request → Result AuthError Identity
  unfolding parse_sig_v4_request_auth verify_auth
  verify v now r = elim (parse_sig_v4_request_auth lib.parse_duration r) [
    | none ↦ err signature_does_not_match
    | some auth ↦ verify_auth v now r auth
  ]
