-- ===== src/S3Api/SigV4/Tests.antt =====
-- SigV4 at concrete inputs. The hashes of the tests are plain functions on texts.
use tg_files.Common.{
  Text, codes, Bool, true, false, ◌&&◌, List, [], ◌∷◌, ◌++◌, some, ◌≡◌, refl, ok, err, text_eq,
  if◌then◌else◌,
}
use tg_files.Golang.Int64.{ℤ, pos, ltb_ℤ, leb_ℤ}
use tg_files.S3Api.SigV4.{
  Request, SigV4Authorization, no_body, week, parse_sig_v4_request_auth, header_get,
}
use tg_files.S3Api.SigV4.Canonical.{build_canonical_request, payload_hash, empty_payload_sha256}
use tg_files.S3Api.SigV4.Verify.{
  Libraries, SigV4Verifier, verify, later, secret_of, signature_does_not_match, signed_payload_hash,
}
use tg_files.S3Api.SigV4.Header.{Signed, IsWritten, authorization_header}
use tg_files.S3Api.SigV4.Accepting.{verify-authorization_header}
use tg_files.S3Api.SigV4.Bounds.{verify-presigned}
use tg_files.S3Api.SigV4.Parsing.{is_plain, IsPlain}
use tg_files.Golang.Strings.{is_space}
use tg_files.Common.{arith}
use tg_files.Store.Multipart.Handlers.{hex_encode}
use tg_files.S3Api.SigV4.Signing.{client_signature, IsHeld, IsOrigin, verify-client_signature}

abbrev length_hash : Text → Text
length_hash t = 7 ∷ []

abbrev test_libraries : Libraries
test_libraries = record {
  sha256 = length_hash;
  hmac = λ key t. 9 ∷ [];
  canonical_header_key = λ name. name;
  parse_duration = λ t. some (pos 60_000_000_000);
  parse_time = λ t. some (pos 1_000_000_000);
  format_date = λ t. codes "20260101";
}

abbrev verifier : SigV4Verifier
verifier = record {
  region = codes "us-east-1";
  keys = (codes "key", codes "secret") ∷ [];
  max_skew = pos 900_000_000_000;
}

abbrev signed : Signed
signed = record {
  access_key = codes "key";
  date = codes "20260101";
  region = codes "us-east-1";
  service = codes "s3";
  first_byte = b'h';
  first_header = codes "ost";
  headers = [];
  signature = codes "09";
}

every_plain : Text → Bool
unfolding is_plain is_space
every_plain [] = true
every_plain (c ∷ s) = if is_plain c then every_plain s else false

every_plain-IsPlain : (s : Text) → every_plain s ≡ true → IsPlain s
unfolding every_plain
every_plain-IsPlain [] h = tt
every_plain-IsPlain (c ∷ s) h = (ground arith, every_plain-IsPlain s (ground arith))

signed-IsWritten : IsWritten signed
unfolding every_plain text_eq
signed-IsWritten = record {
  access_key = every_plain-IsPlain (codes "key") refl;
  date = every_plain-IsPlain (codes "20260101") refl;
  region = every_plain-IsPlain (codes "us-east-1") refl;
  service = every_plain-IsPlain (codes "s3") refl;
  first_header = every_plain-IsPlain (codes "host") refl;
  headers = tt;
  signature = every_plain-IsPlain (codes "09") refl;
  signed = refl;
}

abbrev get : (Text → List Text) → (Text → Text) → Request
get header query = record {
  method = codes "GET";
  host = codes "localhost";
  url_host = [];
  escaped_path = codes "/photos/cat";
  raw_query = codes "a=b&A=c";
  query = query;
  header = header;
  content_length = pos 0;
  body = no_body;
}

-- The headers of a request that the client signed.
abbrev signed_headers : Text → List Text
unfolding text_eq
signed_headers name =
    if text_eq name (codes "Authorization")
    then authorization_header signed ∷ []
    else if text_eq name (codes "X-Amz-Date")
    then codes "20260101T000000Z" ∷ []
    else []

abbrev signed_request : Request
signed_request = get signed_headers (λ name. [])

abbrev canonical : Text
canonical =
    codes "GET"
    ++ 10 ∷ codes "/photos/cat"
    ++ 10 ∷ codes "A=c&a=b"
    ++ 10 ∷ codes "host:localhost"
    ++ 10 ∷ 10 ∷ codes "host"
    ++ 10 ∷ empty_payload_sha256

signed_request-canonical :
    build_canonical_request test_libraries.canonical_header_key signed_request
      (codes "host" ∷ [])
      empty_payload_sha256
      false
    ≡ some canonical
unfolding build_canonical_request
signed_request-canonical = refl

verify-authorization_header_example :
    verify test_libraries verifier (pos 2_000_000_000) signed_request
    ≡ ok (record { access_key = codes "key"; presigned = false })
verify-authorization_header_example =
    verify-authorization_header test_libraries verifier (pos 2_000_000_000) signed_request signed
      (codes "secret") empty_payload_sha256 canonical (pos 1_000_000_000)
      (unfold header_get text_eq in refl) signed-IsWritten refl refl (unfold text_eq in refl)
      (unfold secret_of in refl) (unfold header_get text_eq in refl) refl refl refl refl
      (unfold payload_hash in refl) signed_request-canonical (unfold hex_encode in refl)

abbrev presigned_query : Text → Text
unfolding text_eq
presigned_query name =
    if text_eq name (codes "X-Amz-Algorithm")
    then codes "AWS4-HMAC-SHA256"
    else if text_eq name (codes "X-Amz-Credential")
    then codes "key/20260101/us-east-1/s3/aws4_request"
    else if text_eq name (codes "X-Amz-Date")
    then codes "20260101T000000Z"
    else if text_eq name (codes "X-Amz-Expires")
    then codes "60"
    else if text_eq name (codes "X-Amz-SignedHeaders")
    then codes "host"
    else if text_eq name (codes "X-Amz-Signature")
    then codes "09"
    else []

abbrev presigned_request : Request
presigned_request = get (λ name. []) presigned_query

verify-presigned_request :
    verify test_libraries verifier (pos 2_000_000_000) presigned_request
    ≡ ok (record { access_key = codes "key"; presigned = true })
unfolding verify
verify-presigned_request = refl

-- A minute and a second later the request has expired.
verify-expired :
    verify test_libraries verifier (pos 62_000_000_000) presigned_request
    ≡ err signature_does_not_match
unfolding verify
verify-expired = refl

verify-presigned_example :
    (auth : SigV4Authorization) × (signed_at : ℤ) × (parse_sig_v4_request_auth
        test_libraries.parse_duration presigned_request
      ≡ some auth)
    × (test_libraries.parse_time auth.x_amz_date ≡ some signed_at)
    × (leb_ℤ (pos 2_000_000_000) (later signed_at week) ≡ true)
    × (ltb_ℤ (pos 0) verifier.max_skew
          && ltb_ℤ (later (pos 2_000_000_000) verifier.max_skew) signed_at
        ≡ false)
verify-presigned_example =
    verify-presigned test_libraries verifier (pos 2_000_000_000) presigned_request
      (record { access_key = codes "key"; presigned = true }) verify-presigned_request refl

verify-client_signature_example :
    (auth : SigV4Authorization) × (secret : Text) × (hash : Text) × (origin : Request)
    × (canonical : Text) × (parse_sig_v4_request_auth test_libraries.parse_duration
          presigned_request
        ≡ some auth)
    × (auth.region ≡ codes "us-east-1")
    × (auth.service ≡ codes "s3")
    × (auth.access_key ≡ codes "key")
    × IsHeld (codes "key") secret verifier.keys
    × (signed_payload_hash test_libraries auth presigned_request ≡ some hash)
    × IsOrigin presigned_request origin
    × (build_canonical_request test_libraries.canonical_header_key origin auth.signed_headers hash
          auth.presigned
        ≡ some canonical)
    × (auth.signature
        ≡ client_signature test_libraries secret auth.x_amz_date auth.date auth.region canonical)
verify-client_signature_example =
    verify-client_signature test_libraries verifier (pos 2_000_000_000) presigned_request
      (record { access_key = codes "key"; presigned = true }) verify-presigned_request
