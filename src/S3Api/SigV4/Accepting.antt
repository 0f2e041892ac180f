-- ===== src/S3Api/SigV4/Accepting.antt =====
-- SigV4Verifier.Verify: it accepts what a client signs, and nothing that is out of time.
use tg_files.Common.{
  ℕ, Text, codes, true, false, ◌&&◌, [], ◌∷◌, some, ◌≡◌, refl, arith, ap, ◌∙◌, text_eq,
  text_eq_refl, text_eq_iff, ok, ◌/◌, ◌%◌, sym,
}
use tg_files.Golang.Int64.{ℤ, ltb_ℤ}
use tg_files.Golang.Strings.{lower_byte}
use tg_files.Store.UploadStrategy.{to_lower}
use tg_files.Store.Multipart.Handlers.{hex_digit, hex_encode}
use tg_files.S3Api.SigV4.{Request, SigV4Authorization, header_get, parse_sig_v4_request_auth, dated}
use tg_files.S3Api.SigV4.Canonical.{build_canonical_request, payload_hash}
use tg_files.S3Api.SigV4.Verify.{
  SigV4Verifier, verify, verify_auth, is_request_time, is_signed, is_time, expected_signature,
  secret_of, signed_payload_hash, Libraries, earlier, later,
}
use tg_files.S3Api.SigV4.Signing.{client_signature, expected_signature_lem}
use tg_files.S3Api.SigV4.Header.{
  Signed, IsWritten, authorization, authorization_header,
  parse_sig_v4_authorization-authorization_header,
}

lower_byte-hex_digit : (n : ℕ) → lower_byte (hex_digit n) ≡ hex_digit n
unfolding lower_byte hex_digit
lower_byte-hex_digit n = ground arith

-- A signature in hexadecimal is in lower case.
to_lower-hex_encode : (s : Text) → to_lower (hex_encode s) ≡ hex_encode s
unfolding to_lower hex_encode
to_lower-hex_encode [] = refl
to_lower-hex_encode (c ∷ s) =
    rw (lower_byte-hex_digit (c / 16), lower_byte-hex_digit (c % 16), to_lower-hex_encode s) refl

-- What the server reads of a header and of the request that it stands in.
abbrev pub read_authorization : Signed → Request → SigV4Authorization
read_authorization c r = record (authorization c) { x_amz_date = header_get r (codes "X-Amz-Date") }

module _ (lib : Libraries) where
  -- What the server reads of the header that a client writes.
  request_auth-authorization_header :
      (c : Signed) (r : Request)
      → IsWritten c
      → header_get r (codes "Authorization") ≡ authorization_header c
      → parse_sig_v4_request_auth lib.parse_duration r ≡ some (read_authorization c r)
  unfolding parse_sig_v4_request_auth authorization_header
  request_auth-authorization_header c r w sent =
      rw (sent, parse_sig_v4_request_auth)
        (ap (dated (header_get r (codes "X-Amz-Date")))
            (parse_sig_v4_authorization-authorization_header c w)
          ∙ unfold dated in refl)

  verify_auth_signed :
      (v : SigV4Verifier) (now : ℤ) (r : Request) (auth : SigV4Authorization)
      (secret hash request : Text)
      → text_eq auth.region v.region && text_eq auth.service (codes "s3") ≡ true
      → text_eq auth.access_key [] ≡ false
      → secret_of auth.access_key v.keys ≡ some secret
      → text_eq auth.x_amz_date [] ≡ false
      → is_time lib v now auth ≡ true
      → signed_payload_hash lib auth r ≡ some hash
      → build_canonical_request lib.canonical_header_key r auth.signed_headers hash auth.presigned
        ≡ some request
      → auth.signature ≡ expected_signature lib secret auth request
      → verify_auth lib v now r auth
        ≡ ok (record { access_key = auth.access_key; presigned = auth.presigned })
  unfolding verify_auth is_signed
  verify_auth_signed v now r auth secret hash request scope named known stamped timely hashed
        canonical signed =
      ground (arith, text_eq_refl auth.signature)

  is_request_time-near :
      (v : SigV4Verifier) (now : ℤ) (amz_date date : Text) (signed_at : ℤ)
      → lib.parse_time amz_date ≡ some signed_at
      → date ≡ lib.format_date signed_at
      → ltb_ℤ signed_at (earlier now v.max_skew) ≡ false
      → ltb_ℤ (later now v.max_skew) signed_at ≡ false
      → is_request_time lib v now amz_date date ≡ true
  unfolding is_request_time
  is_request_time-near v now amz_date date signed_at read same late early =
      ground (arith, text_eq_iff date (lib.format_date signed_at))

  -- Verify accepts a request whose Authorization header a client wrote for the verifier's region, the
  -- service s3 and a known access key that is not empty, with fields without white space, comma, slash
  -- or semicolon, with a time that reads, on the date of the header, at most the skew before or after
  -- the clock, a payload hash that fits the body, a canonical request, and the signature of this
  -- request as Amazon describes it for the client, by the key's secret.
  pub verify-authorization_header :
      (v : SigV4Verifier) (now : ℤ) (r : Request) (c : Signed) (secret hash request : Text)
      (signed_at : ℤ)
      → header_get r (codes "Authorization") ≡ authorization_header c
      → IsWritten c
      → c.region ≡ v.region
      → c.service ≡ codes "s3"
      → text_eq c.access_key [] ≡ false
      → secret_of c.access_key v.keys ≡ some secret
      → text_eq (header_get r (codes "X-Amz-Date")) [] ≡ false
      → lib.parse_time (header_get r (codes "X-Amz-Date")) ≡ some signed_at
      → c.date ≡ lib.format_date signed_at
      → ltb_ℤ signed_at (earlier now v.max_skew) ≡ false
      → ltb_ℤ (later now v.max_skew) signed_at ≡ false
      → payload_hash lib.sha256 r ≡ some hash
      → build_canonical_request lib.canonical_header_key r
          ((c.first_byte ∷ c.first_header) ∷ c.headers)
          hash
          false
        ≡ some request
      → c.signature
        ≡ client_signature lib secret (header_get r (codes "X-Amz-Date")) c.date c.region request
      → verify lib v now r ≡ ok (record { access_key = c.access_key; presigned = false })
  unfolding verify
  verify-authorization_header v now r c secret hash request signed_at sent written region service
        named known stamped read day late early hashed canonical signed =
      let auth = read_authorization c r in
      let timely : is_request_time lib v now auth.x_amz_date c.date ≡ true =
        is_request_time-near v now auth.x_amz_date c.date signed_at read day late early in
      let by_server : c.signature ≡ expected_signature lib secret auth request =
        signed ∙ sym (expected_signature_lem lib secret request auth service) in
      let lower : to_lower c.signature ≡ c.signature = rw signed (to_lower-hex_encode _) in
      let scope : text_eq auth.region v.region && text_eq auth.service (codes "s3") ≡ true =
        ground (arith, text_eq_iff c.region v.region, text_eq_iff c.service (codes "s3")) in
      rw (request_auth-authorization_header c r written sent, verify)
        (verify_auth_signed v now r auth secret hash request scope named known stamped
          (unfold is_time in timely) (unfold signed_payload_hash in hashed) canonical
          (lower ∙ by_server ∙ unfold expected_signature in refl))
