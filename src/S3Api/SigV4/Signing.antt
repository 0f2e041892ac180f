-- ===== src/S3Api/SigV4/Signing.antt =====
-- The signature of a request as Amazon describes it for clients, and what Verify makes of it.
use tg_files.Common.{
  Text, codes, true, ◌&&◌, ◌||◌, List, [], ◌∷◌, ◌++◌, some, ◌≡◌, refl, sym, ◌∙◌, arith, text_eq,
  text_eq_iff, ok, Option-cases, Bool-cases, inl, inr, ◌⊎◌,
}
use tg_files.Golang.Int64.{ℤ}
use tg_files.Golang.Splitting.{join}
use tg_files.Store.Multipart.Handlers.{hex_encode}
use tg_files.S3Api.SigV4.{Request, SigV4Authorization, Identity, parse_sig_v4_request_auth}
use tg_files.S3Api.SigV4.Canonical.{build_canonical_request}
use tg_files.S3Api.SigV4.Verify.{
  SigV4Verifier, Libraries, verify, verify_auth, is_signed, fallback_accepted, expected_signature,
  derive_signing_key, secret_of, signed_payload_hash, with_accept_encoding,
}

-- The request itself, or what it was before a proxy changed its Accept-Encoding.
abbrev pub IsOrigin : Request → Request → Type 0
IsOrigin r origin =
    (origin ≡ r)
    ⊎ ((origin ≡ with_accept_encoding (codes "identity") r)
        ⊎ (origin ≡ with_accept_encoding (codes "gzip") r))

-- A pair of the access keys that the server knows.
abbrev pub IsHeld : Text → Text → List (Text × Text) → Type 0
IsHeld key secret [] = ⊥
IsHeld key secret ((k, s) ∷ keys) = ((k ≡ key) × (s ≡ secret)) ⊎ IsHeld key secret keys

secret_of-IsHeld :
    (key secret : Text) (keys : List (Text × Text))
    → secret_of key keys ≡ some secret
    → IsHeld key secret keys
unfolding secret_of
secret_of-IsHeld key secret [] e = absurd (ground arith)
secret_of-IsHeld key secret ((k, s) ∷ keys) e = elim (Bool-cases (text_eq k key)) [
  | inl same ↦ inl ((text_eq_iff k key).0 same, ground arith)
  | inr other ↦ inr (secret_of-IsHeld key secret keys (ground arith))
]

module _ (lib : Libraries) where
  -- The key of a day, a region and the service, from the secret.
  abbrev client_key : Text → Text → Text → Text
  client_key secret date region =
      let k_date = lib.hmac (codes "AWS4" ++ secret) date in
      let k_region = lib.hmac k_date region in
      let k_service = lib.hmac k_region (codes "s3") in lib.hmac k_service (codes "aws4_request")

  -- The four lines that are signed.
  abbrev client_text : Text → Text → Text → Text → Text
  client_text amz_date date region canonical =
      codes "AWS4-HMAC-SHA256"
      ++ (codes "\n"
          ++ (amz_date
              ++ (codes "\n"
                  ++ ((date ++ (codes "/" ++ (region ++ codes "/s3/aws4_request")))
                      ++ (codes "\n" ++ hex_encode (lib.sha256 canonical))))))

  abbrev pub client_signature : Text → Text → Text → Text → Text → Text
  client_signature secret amz_date date region canonical =
      hex_encode
        (lib.hmac (client_key secret date region) (client_text amz_date date region canonical))

  pub expected_signature_lem :
      (secret canonical : Text) (auth : SigV4Authorization)
      → auth.service ≡ codes "s3"
      → expected_signature lib secret auth canonical
        ≡ client_signature secret auth.x_amz_date auth.date auth.region canonical
  unfolding expected_signature derive_signing_key join
  expected_signature_lem secret canonical auth service = rw (service, derive_signing_key) refl

  is_signed-client_signature :
      (secret hash : Text) (auth : SigV4Authorization) (r : Request)
      → auth.service ≡ codes "s3"
      → is_signed lib secret auth hash r ≡ true
      → (canonical : Text) × (build_canonical_request lib.canonical_header_key r auth.signed_headers
            hash auth.presigned
          ≡ some canonical)
        × (auth.signature ≡ client_signature secret auth.x_amz_date auth.date auth.region canonical)
  unfolding is_signed
  is_signed-client_signature secret hash auth r service e =
      elim (Option-cases (
        build_canonical_request lib.canonical_header_key r auth.signed_headers hash
          auth.presigned)) [
            | inl unread ↦ absurd (ground arith)
            | inr (canonical, read) ↦
                let same : text_eq (expected_signature lib secret auth canonical) auth.signature
                    ≡ true =
                  rw (read, is_signed) at e in
                (
                  canonical,
                  read,
                  sym (
                        (text_eq_iff (expected_signature lib secret auth canonical)
                            auth.signature).0
                          same)
                      ∙ expected_signature_lem secret canonical auth service,
                )
          ]

  IsOrigin-signed :
      (secret hash : Text) (auth : SigV4Authorization) (r : Request)
      → is_signed lib secret auth hash r || fallback_accepted lib secret auth hash r ≡ true
      → (origin : Request) × IsOrigin r origin × (is_signed lib secret auth hash origin ≡ true)
  unfolding fallback_accepted
  IsOrigin-signed secret hash auth r e = elim (Bool-cases (is_signed lib secret auth hash r)) [
    | inl plain ↦ (r, inl refl, plain)
    | inr no_plain ↦
        elim (Bool-cases
          (is_signed lib secret auth hash (with_accept_encoding (codes "identity") r))) [
            | inl identity ↦ (with_accept_encoding (codes "identity") r, inr (inl refl), identity)
            | inr no_identity ↦
                (with_accept_encoding (codes "gzip") r, inr (inr refl), ground arith)
          ]
  ]

  verify_auth_named :
      (v : SigV4Verifier) (now : ℤ) (r : Request) (auth : SigV4Authorization) (identity : Identity)
      → verify_auth lib v now r auth ≡ ok identity
      → (text_eq auth.region v.region && text_eq auth.service (codes "s3") ≡ true)
        × (identity.access_key ≡ auth.access_key)
  unfolding verify_auth
  verify_auth_named v now r auth identity e = (ground arith, ground arith)

  verify_auth_secret :
      (v : SigV4Verifier) (now : ℤ) (r : Request) (auth : SigV4Authorization) (identity : Identity)
      → verify_auth lib v now r auth ≡ ok identity
      → (secret : Text) × (secret_of auth.access_key v.keys ≡ some secret)
        × (hash : Text) × (signed_payload_hash lib auth r ≡ some hash)
        × (is_signed lib secret auth hash r || fallback_accepted lib secret auth hash r ≡ true)
  unfolding verify_auth
  verify_auth_secret v now r auth identity e =
      elim (Option-cases (secret_of auth.access_key v.keys)) [
        | inl unknown ↦ absurd (ground arith)
        | inr (secret, known) ↦ elim (Option-cases (signed_payload_hash lib auth r)) [
          | inl unread ↦ absurd (ground arith)
          | inr (hash, hashed) ↦ (secret, known, hash, hashed, ground arith)
        ]
      ]

  -- Verify accepts only a request whose fields read, which names the verifier's region, the service
  -- s3 and a known access key, and which carries the signature that Amazon describes, by a secret of
  -- this key and the time and date it names, of a canonical request: that of the request itself, or of
  -- the request with Accept-Encoding set to identity or to gzip.
  pub verify-client_signature :
      (v : SigV4Verifier) (now : ℤ) (r : Request) (identity : Identity)
      → verify lib v now r ≡ ok identity
      → (auth : SigV4Authorization) × (secret : Text) × (hash : Text) × (origin : Request)
        × (canonical : Text) × (parse_sig_v4_request_auth lib.parse_duration r ≡ some auth)
        × (auth.region ≡ v.region)
        × (auth.service ≡ codes "s3")
        × (auth.access_key ≡ identity.access_key)
        × IsHeld identity.access_key secret v.keys
        × (signed_payload_hash lib auth r ≡ some hash)
        × IsOrigin r origin
        × (build_canonical_request lib.canonical_header_key origin auth.signed_headers hash
              auth.presigned
            ≡ some canonical)
        × (auth.signature ≡ client_signature secret auth.x_amz_date auth.date auth.region canonical)
  unfolding verify
  verify-client_signature v now r identity e =
      elim (Option-cases (parse_sig_v4_request_auth lib.parse_duration r)) [
        | inl unread ↦ absurd (ground arith)
        | inr (auth, read) ↦
            let accepted : verify_auth lib v now r auth ≡ ok identity = rw (read, verify) at e in
            let (scope, named) = verify_auth_named v now r auth identity accepted in
            let (secret, known, hash, hashed, either) =
              verify_auth_secret v now r auth identity accepted in
            let service : auth.service ≡ codes "s3" =
              ground (arith, text_eq_iff auth.service (codes "s3")) in
            let (origin, by, signed) = IsOrigin-signed secret hash auth r either in
            let (canonical, of_origin, same) =
              is_signed-client_signature secret hash auth origin service signed in
            (
              auth,
              secret,
              hash,
              origin,
              canonical,
              read,
              ground (arith, text_eq_iff auth.region v.region),
              service,
              sym named,
              rw named (secret_of-IsHeld auth.access_key secret v.keys known),
              hashed,
              by,
              of_origin,
              same,
            )
      ]
